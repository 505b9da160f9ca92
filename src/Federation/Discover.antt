-- ===== src/Federation/Discover.antt =====
-- federation/sitenode_boot.go: the partners that Discover collects.
--
-- `known` gives what KnownPartnerNodes lists in each round, which changes as messages come in. The
-- vote pings and the sleeps between the rounds are not under the model. The loop runs on fuel.
pub mod Settles
use phabrik.Base.{
  ℕ, zero, suc, ◌+◌, Bool, true, false, List, [], ◌∷◌, Option, none, some, ltb, if◌then◌else◌,
}
use phabrik.Federation.NodeId.{Uint128}
use phabrik.Federation.NodeId
use phabrik.Federation.Partners.{
  PartnerNodeInfo, SeedNodeInfo, SiteNode, lookup, insert, seed_partner,
}

abbrev pub Discovered : Type 0
Discovered = List (Uint128 × PartnerNodeInfo)

-- The seeds, of which no instance is known.
unfoldable pub seeded : List SeedNodeInfo → Discovered → Discovered
unfolding insert seed_partner
seeded [] d = d
seeded (seed ∷ seeds) d = seeded seeds (insert seed.id (seed_partner seed) d)

-- The instance of an entry of the map; that of the zero value is 0.
unfoldable pub instance_of : Option PartnerNodeInfo → ℕ
instance_of none = 0
instance_of (some p) = p.node.instance_id

-- One partner of a round: whether it is newer than what has been discovered, and the map with it.
unfoldable pub merge_one : Uint128 → PartnerNodeInfo → Discovered → Bool × Discovered
unfolding lookup insert instance_of
merge_one self p d =
    if NodeId.eq p.node.id self
    then (false, d)
    else if ltb (instance_of (lookup p.node.id d)) p.node.instance_id
    then (true, insert p.node.id p d)
    else (false, d)

abbrev pub either : Bool → Bool → Bool
either true b = true
either false b = b

-- The loop over the partners of a round.
unfoldable pub merge : Uint128 → List PartnerNodeInfo → Discovered → Bool × Discovered
unfolding merge_one
merge self [] d = (false, d)
merge self (p ∷ ps) d =
    let (found, d') = merge_one self p d in
    let (more, d'') = merge self ps d' in (either found more, d'')

-- What is left of the rounds in which nothing new is found; behind the last the loop ends.
unfoldable pub left : Bool → ℕ → ℕ
left true rounds = rounds
left false zero = zero
left false (suc rounds) = rounds

-- The loop of Discover from its round `n` on.
unfoldable pub discover_loop :
    Uint128 → (ℕ → List PartnerNodeInfo) → ℕ → ℕ → ℕ → Discovered → Option Discovered
unfolding merge left
discover_loop self known zero n rounds d = none
discover_loop self known (suc fuel) n zero d = some d
discover_loop self known (suc fuel) n (suc rounds) d =
    let (found, d') = merge self (known n) d in
    discover_loop self known fuel (n + 1) (left found (suc rounds)) d'

-- Discover, up to the list of the values; six rounds may find nothing.
unfoldable pub discover : (ℕ → List PartnerNodeInfo) → ℕ → SiteNode → Option Discovered
unfolding seeded discover_loop
discover known fuel s = discover_loop s.node.id known fuel 0 6 (seeded s.seed_nodes [])
