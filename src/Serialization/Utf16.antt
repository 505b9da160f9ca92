-- ===== src/Serialization/Utf16.antt =====
-- Go strings as lists of code points, and the package unicode/utf16 that the source encodes them
-- with (serialization/marshal.go, serialization/unmarshal.go, lease/serialize.go).
use phabrik.Base.{
  ℕ, ◌+◌, ◌-◌, ◌*◌, ◌/◌, ◌%◌, ◌≤◌, ◌<◌, ◌≡◌, refl, ap, ◌∙◌, ◌⊎◌, inl, inr, Bool, true, false, ◌&&◌,
  ◌||◌, List, [], ◌∷◌, ◌++◌, arith, length, ltb, leb, if◌then◌else◌, le_bytes, le_value,
  length-append, length-le_bytes, Bool-cases,
}

-- A Unicode scalar value: no surrogate half.
abbrev pub IsRune : ℕ → Type 0
IsRune r = (r < 0xD800) ⊎ ((0xE000 ≤ r) × (r < 0x110000))

abbrev pub AreRunes : List ℕ → Type 0
AreRunes [] = Unit {0}
AreRunes (r ∷ rs) = IsRune r × AreRunes rs

-- The unit or the two units of a rune; the replacement character for what is no rune.
unfoldable pub encode_rune : ℕ → List ℕ → List ℕ
encode_rune r us =
    if ltb r 0xD800 || (leb 0xE000 r && ltb r 0x10000)
    then r ∷ us
    else (if leb 0x10000 r && ltb r 0x110000
        then (0xD800 + (r - 0x10000) / 0x400) ∷ (0xDC00 + (r - 0x10000) % 0x400) ∷ us
        else 0xFFFD ∷ us)

unfoldable pub utf16_encode : List ℕ → List ℕ
utf16_encode [] = []
utf16_encode (r ∷ rs) = encode_rune r (utf16_encode rs)

is_surrogate : ℕ → Bool
is_surrogate u = leb 0xD800 u && ltb u 0xE000

is_pair : ℕ → ℕ → Bool
is_pair u v = (leb 0xD800 u && ltb u 0xDC00) && (leb 0xDC00 v && ltb v 0xE000)

alone : ℕ → ℕ
unfolding is_surrogate
alone u = if is_surrogate u then 0xFFFD else u

unfoldable pub utf16_decode : List ℕ → List ℕ
unfolding is_pair alone
utf16_decode [] = []
utf16_decode (u ∷ []) = alone u ∷ []
utf16_decode (u ∷ v ∷ us) = elim (is_pair u v) [
  | true ↦ ((u - 0xD800) * 0x400 + (v - 0xDC00) + 0x10000) ∷ utf16_decode us
  | false ↦ alone u ∷ utf16_decode (v ∷ us)
]

decode_single :
    (u : ℕ) (us : List ℕ)
    → (u < 0xD800) ⊎ (0xE000 ≤ u)
    → utf16_decode (u ∷ us) ≡ u ∷ utf16_decode us
unfolding utf16_decode
decode_single u [] h = ground arith
decode_single u (v ∷ us) h = ground arith

decode_pair :
    (u v : ℕ) (us : List ℕ)
    → 0xD800 ≤ u
    → u < 0xDC00
    → 0xDC00 ≤ v
    → v < 0xE000
    → utf16_decode (u ∷ v ∷ us) ≡ ((u - 0xD800) * 0x400 + (v - 0xDC00) + 0x10000) ∷ utf16_decode us
unfolding utf16_decode
decode_pair u v us a b c d = ground arith

encode_rune_one : (r : ℕ) (us : List ℕ) → IsRune r → r < 0x10000 → encode_rune r us ≡ r ∷ us
unfolding encode_rune
encode_rune_one r us h l = ground arith

encode_rune_two :
    (r : ℕ) (us : List ℕ)
    → 0x10000 ≤ r
    → r < 0x110000
    → encode_rune r us ≡ (0xD800 + (r - 0x10000) / 0x400) ∷ (0xDC00 + (r - 0x10000) % 0x400) ∷ us
unfolding encode_rune
encode_rune_two r us h l = ground arith

decode-encode_rune :
    (r : ℕ) (us : List ℕ) → IsRune r → utf16_decode (encode_rune r us) ≡ r ∷ utf16_decode us
decode-encode_rune r us h = elim (Bool-cases (ltb r 0x10000)) [
  | inl e ↦ rw (encode_rune_one r us h (ground arith)) (decode_single r us (omega arith))
  | inr e ↦ rw (encode_rune_two r us (ground arith) (ground arith)) (
      decode_pair (0xD800 + (r - 0x10000) / 0x400) (0xDC00 + (r - 0x10000) % 0x400) us (omega arith)
        (ground arith) (omega arith) (omega arith)
      ∙ ap (λ x. x ∷ utf16_decode us) (ground arith))
]

-- Decoding undoes encoding on lists of code points that are no surrogates.
pub utf16_decode-encode : (rs : List ℕ) → AreRunes rs → utf16_decode (utf16_encode rs) ≡ rs
unfolding utf16_encode
utf16_decode-encode [] h = unfold utf16_decode in refl
utf16_decode-encode (r ∷ rs) h =
    decode-encode_rune r (utf16_encode rs) h.0 ∙ ap (◌∷◌ r) (utf16_decode-encode rs h.1)

abbrev pub AreUnits : List ℕ → Type 0
AreUnits [] = Unit {0}
AreUnits (u ∷ us) = (u < 0x10000) × AreUnits us

encode_rune-AreUnits : (r : ℕ) (us : List ℕ) → IsRune r → AreUnits us → AreUnits (encode_rune r us)
encode_rune-AreUnits r us h hu = elim (Bool-cases (ltb r 0x10000)) [
  | inl e ↦ rw (encode_rune_one r us h (ground arith)) (ground arith, hu)
  | inr e ↦ rw (encode_rune_two r us (ground arith) (ground arith)) (omega arith, (omega arith, hu))
]

pub utf16_encode-AreUnits : (rs : List ℕ) → AreRunes rs → AreUnits (utf16_encode rs)
unfolding utf16_encode
utf16_encode-AreUnits [] h = tt
utf16_encode-AreUnits (r ∷ rs) h =
    encode_rune-AreUnits r (utf16_encode rs) h.0 (utf16_encode-AreUnits rs h.1)

-- The units as the bytes of binary.Write and binary.Read.
unfoldable pub unit_bytes : List ℕ → List ℕ
unit_bytes [] = []
unit_bytes (u ∷ us) = le_bytes 2 u ++ unit_bytes us

-- Two bytes a unit; a byte left over cannot be.
unfoldable pub bytes_units : List ℕ → List ℕ
bytes_units [] = []
bytes_units (b ∷ []) = []
bytes_units (b ∷ c ∷ bs) = le_value (b ∷ c ∷ []) ∷ bytes_units bs

pub length-unit_bytes : (us : List ℕ) → length (unit_bytes us) ≡ 2 * length us
unfolding unit_bytes
length-unit_bytes [] = omega arith
length-unit_bytes (u ∷ us) =
    omega (
      arith,
      length-append (le_bytes 2 u) (unit_bytes us),
      length-le_bytes 2 u,
      length-unit_bytes us,
    )

pub bytes_units-unit_bytes : (us : List ℕ) → AreUnits us → bytes_units (unit_bytes us) ≡ us
unfolding unit_bytes bytes_units le_bytes le_value
bytes_units-unit_bytes [] h = refl
bytes_units-unit_bytes (u ∷ us) h =
    rw (bytes_units-unit_bytes us h.1) (ap (λ x. x ∷ us) (omega arith))
