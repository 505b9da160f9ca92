-- ===== src/Federation/Tests.antt =====
-- Runs of the site node's state.
use phabrik.Base.{
  ℕ, ◌≡◌, refl, true, false, inl, inr, List, [], ◌∷◌, ◌++◌, Option, none, some, ok, err, errorf,
  arith, length,
}
use phabrik.Federation.NodeId
use phabrik.Transport.Headers
use phabrik.Serialization.State.{DecodeState, unread, advance}
use phabrik.Serialization.Marshal.{bytes}
use phabrik.Transport.Headers.{get_custom_headers}
use phabrik.Transport.Headers.Read.{empty_headers}
use phabrik.Federation.NodeId.{
  Uint128, cmp, sub, value, IsUint128, node_id_meta_type, cmp-compare, value-sub,
}
use phabrik.Federation.NodeIdRange.{
  NodeIdRange, contains, OnArc, marshal, unmarshal, contains_misses,
}
use phabrik.Federation.NodeIdRange.RoundTrip.{range_round_trip}
use phabrik.Federation.Partners.{
  PartnerNodeInfo, SiteNode, booting, routing, lookup, update_partners, known_partner_nodes,
  connect_target,
}
use phabrik.Federation.Partners.Known.{
  AtLeast, PhaseMoves, update_partners-keeps, update_partners-phase,
}
use phabrik.Federation.Partners.Closest.{
  FirstExact, last, others, connect_target_known, connect_target_unknown, connect_target-last,
}
use phabrik.Federation.Sender.{
  federation_partner_node, append_partner_info, append_partner_info_self,
}
use phabrik.Base.{◌≢◌, zero, suc}
use phabrik.Transport.Headers.{MessageId, is_empty}
use phabrik.Federation.NodeIdGenerator.{
  is_separator, parse_uint, natural, digits, digit_value, add_digit, node_id_from_v4_generator,
  node_id_from_hex,
}
use phabrik.Federation.NodeIdGenerator.Hex.{string, node_id_from_hex-string}
use phabrik.Federation.NodeIdGenerator.Distinct.{node_id_from_v4_generator_apart}

abbrev num : ℕ → Uint128
num n = record { hi = 0; lo = n }

-- A partner with an identifier and an instance.
abbrev partner : ℕ → ℕ → PartnerNodeInfo
partner n i = record {
  node = record { id = num n; instance_id = i };
  phase = routing;
  address = "a";
  token = record { range = record { begin = num 0; end = num 0 }; version = 0 };
  lease_agent_address = "";
  lease_agent_instance_id = 0;
  end_to_end = false;
  node_fault_domain_id = none;
  ring_name = "";
}

abbrev site : SiteNode
site = record {
  node = record { id = num 1; instance_id = 1 };
  seed_nodes = [];
  phase = booting;
  phase_changed = 0;
  parteners = (num 5, partner 5 2) ∷ (num 9, partner 9 3) ∷ [];
}

abbrev headers : List (Option PartnerNodeInfo)
headers = some (partner 5 4) ∷ none ∷ some (partner 6 1) ∷ []

abbrev wrapped : NodeIdRange
wrapped = record { begin = num 8; end = num 2 }

contains_misses_example : OnArc wrapped (num 9) × (contains wrapped (num 9) ≡ false)
contains_misses_example =
    contains_misses wrapped (num 9) ((omega arith, omega arith), (omega arith, omega arith))
      (omega arith, omega arith) (omega arith) (omega arith)

range_round_trip_example :
    (tail : List ℕ) × (marshal wrapped (record { buf_stack = (7 ∷ []) ∷ [] })
      ≡ ok (record { buf_stack = ((7 ∷ []) ++ (node_id_meta_type ∷ tail)) ∷ [] }))
    × ((s : DecodeState) (rest : List ℕ)
        → unread s ≡ tail ++ rest
        → unmarshal node_id_meta_type s ≡ ok (wrapped, advance s (length tail)))
range_round_trip_example =
    range_round_trip wrapped (7 ∷ []) [] (omega arith, omega arith) (omega arith, omega arith)

update_partners-keeps_example : AtLeast 2 (lookup (num 5) (update_partners headers site).parteners)
unfolding lookup NodeId.eq
update_partners-keeps_example = update_partners-keeps headers site (num 5) 2 (omega arith)

update_partners-phase_example : PhaseMoves headers booting (update_partners headers site).phase
update_partners-phase_example = update_partners-phase headers site

append_partner_info_self_example :
    get_custom_headers federation_partner_node
      (append_partner_info (λ p. bytes []) "a" "b" site empty_headers)
    ≡ bytes [] ∷ []
unfolding Headers.lookup
append_partner_info_self_example =
    append_partner_info_self (λ p. bytes []) "a" "b" site empty_headers refl

connect_target_known_example :
    (t : PartnerNodeInfo) × (connect_target (num 9) true site ≡ ok t)
    × FirstExact (num 9) (others site) (some t)
unfolding known_partner_nodes NodeId.eq
connect_target_known_example =
    connect_target_known (num 9) true site (omega arith, omega arith)
      ((omega arith, omega arith), ((omega arith, omega arith), tt)) (inr (inl (omega arith)))

connect_target_unknown_example : connect_target (num 7) true site ≡ err (errorf "%v not found")
unfolding known_partner_nodes NodeId.eq
connect_target_unknown_example =
    connect_target_unknown (num 7) site (omega arith, omega arith)
      (((omega arith, omega arith), omega arith), (((omega arith, omega arith), omega arith), tt))

connect_target-last_example :
    (t : PartnerNodeInfo) × (connect_target (num 7) false site ≡ ok t)
    × (last none (others site) ≡ some t)
unfolding known_partner_nodes NodeId.eq
connect_target-last_example =
    connect_target-last (num 7) site (omega arith, omega arith)
      (((omega arith, omega arith), omega arith), (((omega arith, omega arith), omega arith), tt))
      (inr (inl (omega arith)))

-- The runes of "R.1" and "R_2" behind the role "R".
node_id_from_v4_generator_apart_example :
    (u v : Uint128) × (node_id_from_v4_generator (82 ∷ 46 ∷ 49 ∷ []) ≡ ok u)
    × (node_id_from_v4_generator (82 ∷ 95 ∷ 50 ∷ []) ≡ ok v)
    × (u ≢ v)
unfolding is_separator parse_uint natural digits digit_value add_digit
node_id_from_v4_generator_apart_example =
    node_id_from_v4_generator_apart (82 ∷ []) (49 ∷ []) (50 ∷ []) 46 95 1 2 refl refl refl refl
      (λ e. omega (arith, e))

node_id_from_hex-string_example : node_id_from_hex (string (num 255)) ≡ ok (num 255)
node_id_from_hex-string_example = node_id_from_hex-string (num 255) (omega arith, omega arith)

abbrev both : List PartnerNodeInfo
both = partner 5 2 ∷ partner 1 7 ∷ []

-- Two partners, in one order and the other in turn.
abbrev alternates : ℕ → List PartnerNodeInfo
alternates zero = both
alternates (suc zero) = partner 1 7 ∷ partner 5 2 ∷ []
alternates (suc (suc i)) = alternates i
