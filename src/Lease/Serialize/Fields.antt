-- ===== src/Lease/Serialize/Fields.antt =====
-- Structs of integers, as encoding/binary lays them out for lease/serialize.go.
use phabrik.Base.{
  ℕ, ◌+◌, ◌^◌, ◌<◌, ◌≡◌, refl, ap, sym, ◌∙◌, List, [], ◌∷◌, ◌++◌, le_bytes, le_value,
  le_value-le_bytes, length, length-append, length-le_bytes, take, drop, take-length, drop-length,
  arith,
}

abbrev pub fields_bytes : List (ℕ × ℕ) → List ℕ
fields_bytes [] = []
fields_bytes ((w, v) ∷ fs) = le_bytes w v ++ fields_bytes fs

abbrev pub field_values : List ℕ → List ℕ → List ℕ
field_values [] bs = []
field_values (w ∷ ws) bs = le_value (take w bs) ∷ field_values ws (drop w bs)

abbrev pub widths : List (ℕ × ℕ) → List ℕ
widths [] = []
widths ((w, v) ∷ fs) = w ∷ widths fs

abbrev pub values : List (ℕ × ℕ) → List ℕ
values [] = []
values ((w, v) ∷ fs) = v ∷ values fs

abbrev pub total : List ℕ → ℕ
total [] = 0
total (w ∷ ws) = w + total ws

-- Every value has its width.
abbrev pub DoFit : List (ℕ × ℕ) → Type 0
DoFit [] = Unit {0}
DoFit ((w, v) ∷ fs) = (v < 256 ^ w) × DoFit fs

pub length-fields_bytes : (fs : List (ℕ × ℕ)) → length (fields_bytes fs) ≡ total (widths fs)
length-fields_bytes [] = refl
length-fields_bytes ((w, v) ∷ fs) = omega (
  arith,
  length-append (le_bytes w v) (fields_bytes fs),
  length-le_bytes w v,
  length-fields_bytes fs,
)

take_first : (w v : ℕ) (bs : List ℕ) → take w (le_bytes w v ++ bs) ≡ le_bytes w v
take_first w v bs =
    ap (λ n. take n (le_bytes w v ++ bs)) (sym (length-le_bytes w v))
    ∙ take-length (le_bytes w v) bs

drop_first : (w v : ℕ) (bs : List ℕ) → drop w (le_bytes w v ++ bs) ≡ bs
drop_first w v bs =
    ap (λ n. drop n (le_bytes w v ++ bs)) (sym (length-le_bytes w v))
    ∙ drop-length (le_bytes w v) bs

-- The fields that were laid out are read back.
pub field_values-fields_bytes :
    (fs : List (ℕ × ℕ)) → DoFit fs → field_values (widths fs) (fields_bytes fs) ≡ values fs
field_values-fields_bytes [] h = refl
field_values-fields_bytes ((w, v) ∷ fs) (hv, hs) =
    rw
      (
        take_first w v (fields_bytes fs),
        drop_first w v (fields_bytes fs),
        le_value-le_bytes w v hv,
        field_values-fields_bytes fs hs,
      )
      refl
