-- ===== src/Federation/NodeIdRange.antt =====
-- federation/nodeid_range.go: ranges of node identifiers on the ring, and their bytes.
pub mod RoundTrip
use Prim.Native.Nat.{compare, Ordering}
use phabrik.Base.{
  ℕ, ◌+◌, ◌*◌, ◌^◌, ◌≤◌, ◌<◌, ◌≡◌, ◌⊎◌, inl, inr, refl, ap, ◌∙◌, Bool, true, false, ◌&&◌, ◌||◌,
  Result, ok, ltb, leb, if◌then◌else◌, ◌>>=◌, arith, List, [], ◌∷◌, ◌++◌, ==_self, length,
}
use phabrik.Serialization.State.{DecodeState, EncodeState, write}
use phabrik.Serialization.Marshal.{write_type_meta, write_compressed_uint32}
use phabrik.Serialization.Unmarshal.{Decoded, read_type_meta, read_compressed_uint32}
use phabrik.Federation.NodeId.{Uint128, u128_zero, u128_max, IsUint128, cmp, value, cmp-compare}
use phabrik.Federation.NodeId

pub record NodeIdRange : Type 0 where
  pub begin : Uint128
  pub end : Uint128

-- `u.cmp(v) <= 0`
unfoldable pub at_most : Uint128 → Uint128 → Bool
at_most u v = elim (cmp u v) [ Ordering.gt ↦ false | _ ↦ true ]

unfoldable pub contains : NodeIdRange → Uint128 → Bool
contains r id =
    let s = r.begin in
    let e = r.end in
    elim (cmp s e) [
      | Ordering.gt ↦
          if at_most s id && at_most u128_max e
          then true
          else (if at_most u128_zero id && at_most id e then true else false)
      | _ ↦ at_most s id && at_most id e
    ]

unfoldable pub marshal : NodeIdRange → EncodeState → Result EncodeState
marshal r s = do s1 ← NodeId.marshal r.begin s; NodeId.marshal r.end s1

unfoldable pub unmarshal : ℕ → DecodeState → Decoded NodeIdRange
unmarshal m s = do
  (b, s1) ← NodeId.unmarshal m s
  (m', s2) ← read_type_meta s1
  (e, s3) ← NodeId.unmarshal m' s2
  ok (record { begin = b; end = e }, s3)

at_most-leb : (u v : Uint128) → IsUint128 u → IsUint128 v → at_most u v ≡ leb (value u) (value v)
unfolding at_most
at_most-leb u v hu hv = rw (cmp-compare u v hu hv, at_most) refl

abbrev pub IsRange : NodeIdRange → Type 0
IsRange r = IsUint128 r.begin × IsUint128 r.end

-- A range that does not wrap holds the numbers between its ends. One that begins above its end
-- holds those up to its end, and none of those from its beginning on.
pub contains_lem :
    (r : NodeIdRange) (id : Uint128)
    → IsRange r
    → IsUint128 id
    → contains r id ≡ (
        if ltb (value r.end) (value r.begin)
        then leb (value id) (value r.end)
        else leb (value r.begin) (value id) && leb (value id) (value r.end))
unfolding contains
contains_lem r id hr hi = ground (
  arith,
  cmp-compare r.begin r.end hr.0 hr.1,
  at_most-leb r.begin id hr.0 hi,
  at_most-leb u128_max r.end (omega arith) hr.1,
  at_most-leb u128_zero id (omega arith) hi,
  at_most-leb id r.end hi hr.1,
)

-- The ring between the ends of a range that wraps: from its beginning on, or up to its end.
abbrev pub OnArc : NodeIdRange → Uint128 → Type 0
OnArc r id = (value r.begin ≤ value id) ⊎ (value id ≤ value r.end)

-- A range that wraps leaves out every identifier from its beginning on, though these are on it.
pub contains_misses :
    (r : NodeIdRange) (id : Uint128)
    → IsRange r
    → IsUint128 id
    → value r.end < value r.begin
    → value r.begin ≤ value id
    → OnArc r id × (contains r id ≡ false)
contains_misses r id hr hi w h = (inl h, ground (arith, contains_lem r id hr hi))
