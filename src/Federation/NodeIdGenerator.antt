-- ===== src/Federation/NodeIdGenerator.antt =====
-- federation/nodeid_generator.go: node identifiers from hex strings, from digests and from names.
--
-- Strings are lists of code points. `md5` stands for md5.Sum. A conversion that fails gives none.
pub mod Hex
pub mod Distinct
use Prim.Native.Nat.{bit_xor}
use phabrik.Base.{
  ℕ, zero, suc, ◌+◌, ◌-◌, ◌*◌, ◌/◌, ◌%◌, ◌^◌, Bool, true, false, ◌&&◌, ◌||◌, List, [], ◌∷◌, ◌++◌,
  Option, none, some, Result, ok, err, panic, errorf, ltb, leb, ◌==◌, if◌then◌else◌,
}
use phabrik.Serialization.Utf16.{utf16_encode, unit_bytes}
use phabrik.Federation.NodeId.{Uint128, node_id_of_bytes}

-- The value of a digit; the letters of both cases are digits from ten on.
unfoldable pub digit_value : ℕ → Option ℕ
digit_value c =
    if leb 48 c && leb c 57
    then some (c - 48)
    else if leb 97 c && leb c 122
    then some (c - 87)
    else if leb 65 c && leb c 90
    then some (c - 55)
    else none

unfoldable pub add_digit : ℕ → ℕ → Option ℕ → Option ℕ
add_digit base acc none = none
add_digit base acc (some d) = if ltb d base then some (base * acc + d) else none

-- The digits behind those that gave `acc`.
unfoldable pub digits : ℕ → ℕ → List ℕ → Option ℕ
unfolding digit_value add_digit
digits base acc [] = some acc
digits base acc (c ∷ cs) = elim (add_digit base acc (digit_value c)) [
  | none ↦ none
  | some acc' ↦ digits base acc' cs
]

-- A number has at least one digit.
unfoldable pub natural : ℕ → List ℕ → Option ℕ
unfolding digits
natural base [] = none
natural base (c ∷ cs) = digits base 0 (c ∷ cs)

unfoldable pub with_sign : Bool → Option ℕ → Option (Bool × ℕ)
with_sign sign none = none
with_sign sign (some m) = some (sign, m)

-- big.Int.SetString: the sign and the magnitude.
unfoldable pub set_string : ℕ → List ℕ → Option (Bool × ℕ)
unfolding natural with_sign
set_string base [] = none
set_string base (c ∷ cs) =
    if c == 45
    then with_sign true (natural base cs)
    else if c == 43
    then with_sign false (natural base cs)
    else with_sign false (natural base (c ∷ cs))

-- The magnitude after Rsh by 64, which rounds down.
unfoldable pub shifted : Bool → ℕ → ℕ
shifted false m = m / 2 ^ 64
shifted true m = if m == 0 then 0 else (m - 1) / 2 ^ 64 + 1

unfoldable pub node_id_of : Option (Bool × ℕ) → Result Uint128
unfolding shifted
node_id_of none = err (errorf "fail to convert %v to Uint128")
node_id_of (some x) = ok (record { hi = shifted x.0 x.1 % 2 ^ 64; lo = x.1 % 2 ^ 64 })

-- NodeIDFromHex; Uint64 is the low 64 bits of the magnitude.
unfoldable pub node_id_from_hex : List ℕ → Result Uint128
unfolding set_string node_id_of
node_id_from_hex v = node_id_of (set_string 16 v)

-- NodeIDFromMD5
unfoldable pub node_id_from_md5 : (List ℕ → List ℕ) → List ℕ → Uint128
node_id_from_md5 md5 v = node_id_of_bytes (md5 v)

abbrev pub pearson_prefix : List ℕ
pearson_prefix = 85 ∷ 84 ∷ 122 ∷ 74 ∷ []

abbrev pub pearson_suffix : List ℕ
pearson_suffix = 88 ∷ 51 ∷ 105 ∷ 102 ∷ []

abbrev pub pearson_t : List ℕ
pearson_t =
    0x01 ∷ 0x57 ∷ 0x31 ∷ 0x0C ∷ 0xB0 ∷ 0xB2 ∷ 0x66 ∷ 0xA6 ∷ 0x79 ∷ 0xC1 ∷ 0x06 ∷ 0x54 ∷ 0xF9 ∷ 0xE6
    ∷ 0x2C ∷ 0xA3 ∷ 0x0E ∷ 0xC5 ∷ 0xD5 ∷ 0xB5 ∷ 0xA1 ∷ 0x55 ∷ 0xDA ∷ 0x50 ∷ 0x40 ∷ 0xEF ∷ 0x18
    ∷ 0xE2 ∷ 0xEC ∷ 0x8E ∷ 0x26 ∷ 0xC8 ∷ 0x6E ∷ 0xB1 ∷ 0x68 ∷ 0x67 ∷ 0x8D ∷ 0xFD ∷ 0xFF ∷ 0x32
    ∷ 0x4D ∷ 0x65 ∷ 0x51 ∷ 0x12 ∷ 0x2D ∷ 0x60 ∷ 0x1F ∷ 0xDE ∷ 0x19 ∷ 0x6B ∷ 0xBE ∷ 0x46 ∷ 0x56
    ∷ 0xED ∷ 0xF0 ∷ 0x22 ∷ 0x48 ∷ 0xF2 ∷ 0x14 ∷ 0xD6 ∷ 0xF4 ∷ 0xE3 ∷ 0x95 ∷ 0xEB ∷ 0x61 ∷ 0xEA
    ∷ 0x39 ∷ 0x16 ∷ 0x3C ∷ 0xFA ∷ 0x52 ∷ 0xAF ∷ 0xD0 ∷ 0x05 ∷ 0x7F ∷ 0xC7 ∷ 0x6F ∷ 0x3E ∷ 0x87
    ∷ 0xF8 ∷ 0xAE ∷ 0xA9 ∷ 0xD3 ∷ 0x3A ∷ 0x42 ∷ 0x9A ∷ 0x6A ∷ 0xC3 ∷ 0xF5 ∷ 0xAB ∷ 0x11 ∷ 0xBB
    ∷ 0xB6 ∷ 0xB3 ∷ 0x00 ∷ 0xF3 ∷ 0x84 ∷ 0x38 ∷ 0x94 ∷ 0x4B ∷ 0x80 ∷ 0x85 ∷ 0x9E ∷ 0x64 ∷ 0x82
    ∷ 0x7E ∷ 0x5B ∷ 0x0D ∷ 0x99 ∷ 0xF6 ∷ 0xD8 ∷ 0xDB ∷ 0x77 ∷ 0x44 ∷ 0xDF ∷ 0x4E ∷ 0x53 ∷ 0x58
    ∷ 0xC9 ∷ 0x63 ∷ 0x7A ∷ 0x0B ∷ 0x5C ∷ 0x20 ∷ 0x88 ∷ 0x72 ∷ 0x34 ∷ 0x0A ∷ 0x8A ∷ 0x1E ∷ 0x30
    ∷ 0xB7 ∷ 0x9C ∷ 0x23 ∷ 0x3D ∷ 0x1A ∷ 0x8F ∷ 0x4A ∷ 0xFB ∷ 0x5E ∷ 0x81 ∷ 0xA2 ∷ 0x3F ∷ 0x98
    ∷ 0xAA ∷ 0x07 ∷ 0x73 ∷ 0xA7 ∷ 0xF1 ∷ 0xCE ∷ 0x03 ∷ 0x96 ∷ 0x37 ∷ 0x3B ∷ 0x97 ∷ 0xDC ∷ 0x5A
    ∷ 0x35 ∷ 0x17 ∷ 0x83 ∷ 0x7D ∷ 0xAD ∷ 0x0F ∷ 0xEE ∷ 0x4F ∷ 0x5F ∷ 0x59 ∷ 0x10 ∷ 0x69 ∷ 0x89
    ∷ 0xE1 ∷ 0xE0 ∷ 0xD9 ∷ 0xA0 ∷ 0x25 ∷ 0x7B ∷ 0x76 ∷ 0x49 ∷ 0x02 ∷ 0x9D ∷ 0x2E ∷ 0x74 ∷ 0x09
    ∷ 0x91 ∷ 0x86 ∷ 0xE4 ∷ 0xCF ∷ 0xD4 ∷ 0xCA ∷ 0xD7 ∷ 0x45 ∷ 0xE5 ∷ 0x1B ∷ 0xBC ∷ 0x43 ∷ 0x7C
    ∷ 0xA8 ∷ 0xFC ∷ 0x2A ∷ 0x04 ∷ 0x1D ∷ 0x6C ∷ 0x15 ∷ 0xF7 ∷ 0x13 ∷ 0xCD ∷ 0x27 ∷ 0xCB ∷ 0xE9
    ∷ 0x28 ∷ 0xBA ∷ 0x93 ∷ 0xC6 ∷ 0xC0 ∷ 0x9B ∷ 0x21 ∷ 0xA4 ∷ 0xBF ∷ 0x62 ∷ 0xCC ∷ 0xA5 ∷ 0xB4
    ∷ 0x75 ∷ 0x4C ∷ 0x8C ∷ 0x24 ∷ 0xD2 ∷ 0xAC ∷ 0x29 ∷ 0x36 ∷ 0x9F ∷ 0x08 ∷ 0xB9 ∷ 0xE8 ∷ 0x71
    ∷ 0xC4 ∷ 0xE7 ∷ 0x2F ∷ 0x92 ∷ 0x78 ∷ 0x33 ∷ 0x41 ∷ 0x1C ∷ 0x90 ∷ 0xFE ∷ 0xDD ∷ 0x5D ∷ 0xBD
    ∷ 0xC2 ∷ 0x8B ∷ 0x70 ∷ 0x2B ∷ 0x47 ∷ 0x6D ∷ 0xB8 ∷ 0xD1 ∷ []

-- An entry of the table; every index is a byte.
unfoldable pub entry : ℕ → List ℕ → ℕ
entry n [] = 0
entry zero (t ∷ ts) = t
entry (suc n) (t ∷ ts) = entry n ts

unfoldable pub mix : ℕ → List ℕ → ℕ
unfolding entry
mix h [] = h
mix h (b ∷ bs) = mix (entry (bit_xor h b) pearson_t) bs

-- The byte j of the hash; the input has the prefix, so it is not empty.
unfoldable pub hash_byte : ℕ → List ℕ → ℕ
unfolding mix
hash_byte j [] = 0
hash_byte j (b ∷ bs) = mix (entry ((b + j) % 256) pearson_t) bs

-- The bytes j, j + 1, ... of the hash.
unfoldable pub hash_bytes : ℕ → ℕ → List ℕ → List ℕ
unfolding hash_byte
hash_bytes zero j input = []
hash_bytes (suc n) j input = hash_byte j input ∷ hash_bytes n (j + 1) input

-- pearsonHash
unfoldable pub pearson_hash : List ℕ → List ℕ
unfolding hash_bytes
pearson_hash v =
    hash_bytes 16 0 (unit_bytes (utf16_encode (pearson_prefix ++ (v ++ pearson_suffix))))

unfoldable pub is_separator : ℕ → Bool
is_separator c = (c == 46) || (c == 95)

unfoldable pub split_here : ℕ → List ℕ → Option (List ℕ × List ℕ) → Option (List ℕ × List ℕ)
unfolding is_separator
split_here c cs none = if is_separator c then some ([], cs) else none
split_here c cs (some parts) = some (c ∷ parts.0, parts.1)

-- What stands before the last separator, and what behind it.
unfoldable pub split_last : List ℕ → Option (List ℕ × List ℕ)
unfolding split_here
split_last [] = none
split_last (c ∷ cs) = split_here c cs (split_last cs)

-- strconv.ParseUint(v, 10, 64)
unfoldable pub parse_uint : List ℕ → Option ℕ
unfolding natural
parse_uint v = elim (natural 10 v) [
  | none ↦ none
  | some n ↦ if ltb n (2 ^ 64) then some n else none
]

-- The 24 bits that an instance of a role gets.
unfoldable pub instance_bits : List ℕ → ℕ → ℕ
unfolding pearson_hash
instance_bits role n =
    ((node_id_of_bytes (pearson_hash role)).lo % 2 ^ 24 + n) % 2 ^ 64 % 2 ^ 24 * 14938617 % 2 ^ 24

-- The bits of an instance stand above those that are kept of the hash, so `|` adds them.
unfoldable pub with_instance : Uint128 → List ℕ → Option ℕ → Uint128
unfolding instance_bits
with_instance hash role none = hash
with_instance hash role (some n) = record hash {
  hi = hash.hi % 2 ^ 40 + instance_bits role n * 2 ^ 40;
}

unfoldable pub id_of_parts : Uint128 → Option (List ℕ × List ℕ) → Result Uint128
unfolding parse_uint with_instance
id_of_parts hash none = panic
id_of_parts hash (some parts) = ok (with_instance hash parts.0 (parse_uint parts.1))

-- NodeIDFromV4Generator: without a separator the index is -1, and the slice panics.
unfoldable pub node_id_from_v4_generator : List ℕ → Result Uint128
unfolding pearson_hash split_last id_of_parts
node_id_from_v4_generator v = id_of_parts (node_id_of_bytes (pearson_hash v)) (split_last v)
