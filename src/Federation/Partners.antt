-- ===== src/Federation/Partners.antt =====
-- The partners that a site node knows and its phase (federation/message.go,
-- federation/sitenode_parteners.go, federation/sitenode.go, federation/sitenode_sender.go).
pub mod Known
pub mod Closest
use Prim.Native.Nat.{Ordering}
use phabrik.Base.{
  ℕ, ◌+◌, ◌<◌, Bool, true, false, not, ◌&&◌, ◌||◌, String, List, [], ◌∷◌, ◌++◌, Option, none, some,
  Result, ok, err, errorf, ltb, leb, ◌==◌, if◌then◌else◌, ◌>>=◌,
}
use phabrik.Common.{Uri}
use phabrik.Federation.NodeId.{Uint128, u128_zero, u128_max, sub, cmp}
use phabrik.Federation.NodeId
use phabrik.Federation.NodeIdRange.{NodeIdRange}

pub record NodeInstance : Type 0 where
  pub id : Uint128
  pub instance_id : ℕ

pub data NodePhase : Type 0 where
  booting joining inserting routing shutdown : NodePhase

-- The int64 of a phase.
abbrev pub phase_number : NodePhase → ℕ
phase_number booting = 0
phase_number joining = 1
phase_number inserting = 2
phase_number routing = 3
phase_number shutdown = 4

pub record RoutingToken : Type 0 where
  pub range : NodeIdRange
  pub version : ℕ

-- A FederationPartnerNodeHeader is such a record and flags that nothing reads.
pub record PartnerNodeInfo : Type 0 where
  pub node : NodeInstance
  pub phase : NodePhase
  pub address : String
  pub token : RoutingToken
  pub lease_agent_address : String
  pub lease_agent_instance_id : ℕ
  pub end_to_end : Bool
  pub node_fault_domain_id : Option Uri
  pub ring_name : String

pub record SeedNodeInfo : Type 0 where
  pub id : Uint128
  pub address : String

-- The map of partners as an association list, and the channel phaseChanged as the number of
-- times that it has been closed and made anew.
pub record SiteNode : Type 0 where
  pub node : NodeInstance
  pub seed_nodes : List SeedNodeInfo
  pub phase : NodePhase
  pub phase_changed : ℕ
  pub parteners : List (Uint128 × PartnerNodeInfo)

unfoldable pub lookup : Uint128 → List (Uint128 × PartnerNodeInfo) → Option PartnerNodeInfo
lookup id [] = none
lookup id ((other, p) ∷ more) = if NodeId.eq other id then some p else lookup id more

unfoldable pub insert :
    Uint128 → PartnerNodeInfo → List (Uint128 × PartnerNodeInfo) → List (Uint128 × PartnerNodeInfo)
insert id p [] = (id, p) ∷ []
insert id p ((other, q) ∷ more) =
    if NodeId.eq other id then (id, p) ∷ more else (other, q) ∷ insert id p more

unfoldable pub change_phase : NodePhase → SiteNode → SiteNode
change_phase new_phase s =
    if phase_number s.phase == phase_number new_phase
    then s
    else record s { phase = new_phase; phase_changed = s.phase_changed + 1 }

unfoldable pub on_partner_changed : PartnerNodeInfo → SiteNode → SiteNode
unfolding change_phase
on_partner_changed p s =
    if (phase_number p.phase == phase_number routing)
      && (phase_number s.phase == phase_number booting)
    then change_phase joining s
    else s

-- `!found || old.Instance.InstanceId < h.Instance.InstanceId`
unfoldable pub is_newer : Option PartnerNodeInfo → PartnerNodeInfo → Bool
is_newer none h = true
is_newer (some old) h = ltb old.node.instance_id h.node.instance_id

unfoldable pub update_partner_node : PartnerNodeInfo → SiteNode → SiteNode
unfolding is_newer
update_partner_node h s =
    if is_newer (lookup h.node.id s.parteners) h
    then on_partner_changed h (record s { parteners = insert h.node.id h s.parteners })
    else s

-- The loop of onMessage over the partner headers; `none` is a header of another Go type.
unfoldable pub update_partners : List (Option PartnerNodeInfo) → SiteNode → SiteNode
update_partners [] s = s
update_partners (none ∷ hs) s = update_partners hs s
update_partners (some h ∷ hs) s = update_partners hs (update_partner_node h s)

abbrev pub empty_token : RoutingToken
empty_token = record { range = record { begin = u128_zero; end = u128_zero }; version = 0 }

-- A partner of which only an identifier and an address are known.
unfoldable pub seed_partner : SeedNodeInfo → PartnerNodeInfo
seed_partner seed = record {
  node = record { id = seed.id; instance_id = 0 };
  phase = booting;
  address = seed.address;
  token = empty_token;
  lease_agent_address = "";
  lease_agent_instance_id = 0;
  end_to_end = false;
  node_fault_domain_id = none;
  ring_name = "";
}

unfoldable pub seed_partners : List SeedNodeInfo → List (Option PartnerNodeInfo)
unfolding seed_partner
seed_partners [] = []
seed_partners (seed ∷ seeds) = some (seed_partner seed) ∷ seed_partners seeds

-- NewSiteNode, less the servers and dialers that it is given.
unfoldable pub new_site_node : NodeInstance → List SeedNodeInfo → Result SiteNode
unfolding seed_partners
new_site_node node [] = err (errorf "empty seednodes")
new_site_node node (seed ∷ seeds) = ok (
    update_partners (seed_partners (seed ∷ seeds)) (record {
      node = node;
      seed_nodes = seed ∷ seeds;
      phase = booting;
      phase_changed = 0;
      parteners = [];
    }))

-- KnownPartnerNodes; Go's order of iteration is that of the list.
unfoldable pub known_partner_nodes :
    (PartnerNodeInfo → Bool) → List (Uint128 × PartnerNodeInfo) → List PartnerNodeInfo
known_partner_nodes keep [] = []
known_partner_nodes keep ((_, p) ∷ m) =
    let rest = known_partner_nodes keep m in if keep p then p ∷ rest else rest

-- The loop of closestPartnerNode over the partners that are left. The module is built as Go 1.18,
-- where a range loop has one variable for all rounds: `cur = &p` points at it, so what `cur` shows
-- in the end is what the variable holds then. `is_set` tells whether `cur` is not nil, and `var` is
-- the variable.
unfoldable pub closest_loop :
    Uint128
    → Uint128
    → Bool
    → Option PartnerNodeInfo
    → List PartnerNodeInfo
    → Option PartnerNodeInfo
closest_loop id max is_set var [] = if is_set then var else none
closest_loop id max is_set var (p ∷ ps) =
    let diff = sub p.node.id id in
    let nearer = closest_loop id diff true (some p) ps in
    let further = closest_loop id max is_set (some p) ps in
    if NodeId.eq diff u128_zero
    then some p
    else (elim (cmp diff max) [ Ordering.lt ↦ nearer | _ ↦ further ])

unfoldable pub closest_partner_node :
    Uint128 → (PartnerNodeInfo → Bool) → SiteNode → Option PartnerNodeInfo
closest_partner_node id keep s =
    closest_loop id u128_max false none (known_partner_nodes keep s.parteners)

-- `t == nil || (match && t.Instance.Id != id)`
unfoldable pub check_target : Uint128 → Bool → Option PartnerNodeInfo → Result PartnerNodeInfo
check_target id match none = err (errorf "%v not found")
check_target id match (some t) =
    if match && not (NodeId.eq t.node.id id) then err (errorf "%v not found") else ok t

-- The partner that connectToNode connects to; what dialing does is not under it.
unfoldable pub connect_target : Uint128 → Bool → SiteNode → Result PartnerNodeInfo
unfolding check_target
connect_target id match s =
    check_target id match (closest_partner_node id (λ p. not (NodeId.eq p.node.id s.node.id)) s)
