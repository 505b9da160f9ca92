-- ===== src/Federation/NodeId.antt =====
-- federation/nodeid.go: 128-bit node identifiers, their order and difference, and their bytes.
use Prim.Native.Nat.{compare, Ordering}
use phabrik.Base.{
  ℕ, ◌+◌, ◌-◌, ◌*◌, ◌%◌, ◌^◌, ◌<◌, ◌≡◌, Bool, ◌&&◌, ◌||◌, List, ◌++◌, Result, ok, errorf, ltb, ◌==◌,
  if◌then◌else◌, ◌>>=◌, ◌>>◌, guard, arith, le_bytes, le_value, take, drop,
}
use Prim.Native.Nat.{bit_or}
use phabrik.Serialization.State.{DecodeState, read_binary, EncodeState, write}
use phabrik.Serialization.TypeMeta.{meta}
use phabrik.Serialization.Marshal.{write_compressed_uint32, write_type_meta}
use phabrik.Serialization.Unmarshal.{read_compressed_uint32, Decoded}

-- uint128, and NodeID, which is the same.
pub record Uint128 : Type 0 where
  pub hi : ℕ
  pub lo : ℕ

abbrev pub u128_zero : Uint128
u128_zero = record { hi = 0; lo = 0 }

abbrev pub u128_max : Uint128
u128_max = record { hi = 2 ^ 64 - 1; lo = 2 ^ 64 - 1 }

-- bits.Sub64: the difference and the borrow.
unfoldable pub sub64 : ℕ → ℕ → ℕ → ℕ × ℕ
sub64 x y borrow = ((x + 2 ^ 65 - y - borrow) % 2 ^ 64, if ltb x (y + borrow) then 1 else 0)

unfoldable pub sub : Uint128 → Uint128 → Uint128
unfolding sub64
sub u v =
    let (lo, borrow) = sub64 u.lo v.lo 0 in
    let (hi, _) = sub64 u.hi v.hi borrow in record { hi = hi; lo = lo }

-- `u == v`
unfoldable pub eq : Uint128 → Uint128 → Bool
eq u v = (u.hi == v.hi) && (u.lo == v.lo)

-- The results -1, 0 and 1 are lt, eq and gt.
unfoldable pub cmp : Uint128 → Uint128 → Ordering
unfolding eq
cmp u v =
    if eq u v
    then Ordering.eq
    else (if ltb u.hi v.hi || ((u.hi == v.hi) && ltb u.lo v.lo) then Ordering.lt else Ordering.gt)

-- The number that the two halves stand for.
abbrev pub value : Uint128 → ℕ
value u = u.hi * 2 ^ 64 + u.lo

abbrev pub IsUint128 : Uint128 → Type 0
IsUint128 u = (u.hi < 2 ^ 64) × (u.lo < 2 ^ 64)

pub value-lt : (u : Uint128) → IsUint128 u → value u < 2 ^ 128
value-lt u h = omega arith

-- cmp is the order of the numbers, for halves below 2 ^ 64.
pub cmp-compare :
    (u v : Uint128) → IsUint128 u → IsUint128 v → cmp u v ≡ compare (value u) (value v)
unfolding cmp
cmp-compare u v hu hv = ground arith

-- For halves below 2 ^ 64, sub is the difference modulo 2 ^ 128, and stays in range.
pub value-sub :
    (u v : Uint128)
    → IsUint128 u
    → IsUint128 v
    → IsUint128 (sub u v) × (value (sub u v) ≡ (value u + 2 ^ 128 - value v) % 2 ^ 128)
unfolding sub
value-sub u v hu hv = ground arith

pub eq_iff : (u v : Uint128) → IsUint128 u → IsUint128 v → eq u v ≡ (value u == value v)
unfolding eq
eq_iff u v hu hv = ground arith

abbrev pub size_of_node_id : ℕ
size_of_node_id = 16

abbrev pub node_id_meta_type : ℕ
node_id_meta_type = bit_or meta.u_char meta.array

unfoldable pub node_id_bytes : Uint128 → List ℕ
node_id_bytes n = le_bytes 8 n.hi ++ le_bytes 8 n.lo

unfoldable pub node_id_of_bytes : List ℕ → Uint128
node_id_of_bytes bs = record { hi = le_value (take 8 bs); lo = le_value (drop 8 bs) }

-- NodeID.Marshal
unfoldable pub marshal : Uint128 → EncodeState → Result EncodeState
unfolding node_id_bytes
marshal n s = do
  s1 ← write_type_meta node_id_meta_type s
  s2 ← write_compressed_uint32 size_of_node_id s1
  write (node_id_bytes n) s2

-- NodeID.Unmarshal
unfoldable pub unmarshal : ℕ → DecodeState → Decoded Uint128
unfolding node_id_of_bytes
unmarshal m s = do
  guard (m == node_id_meta_type) (errorf "expect %v got %v")
  (c, s1) ← read_compressed_uint32 s
  guard (c == size_of_node_id) (errorf "wrong node id size")
  (bytes, s2) ← read_binary 16 s1
  ok (node_id_of_bytes bytes, s2)
