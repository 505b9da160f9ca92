-- ===== src/Serialization/GoType.antt =====
-- The Go types and values that the package serialization reflects on.
use phabrik.Base.{ℕ, Bool, true, false, List, [], Option, none}
use phabrik.Serialization.Guid.{Guid, empty_guid}

-- The sizes of the integers that are compressed.
pub data Width : Type 0 where
  w16 w32 w64 : Width

abbrev pub bytes_of : Width → ℕ
bytes_of w16 = 2
bytes_of w32 = 4
bytes_of w64 = 8

-- A struct type lists the fields that `all_fields` gives; `guid` stands for the structs that
-- marshal themselves, `other` for the kinds that the package does not support.
mutual
  pub data GoType : Type 0 where
    bool int8 uint8 float64 string guid other : GoType
    int uint : Width → GoType
    ptr slice : GoType → GoType
    map : GoType → GoType → GoType
    struct : Fields → GoType

  pub data Fields : Type 0 where
    nil : Fields
    cons : GoType → Fields → Fields

-- int8 and uint8 are bytes, integers the 64-bit patterns that rv.Int and rv.Uint give, a float64
-- its bits, a string its runes. A pointer, a slice or a map is `none` if nil; a map is the list of
-- its assignments, of which the last for a key holds. Of another kind only IsZero is asked.
abbrev mutual
  pub Val : GoType → Type 0
  Val bool = Bool
  Val int8 = ℕ
  Val uint8 = ℕ
  Val float64 = ℕ
  Val string = List ℕ
  Val guid = Guid
  Val other = Bool
  Val (int w) = ℕ
  Val (uint w) = ℕ
  Val (ptr t) = Option (Val t)
  Val (slice t) = Option (List (Val t))
  Val (map k v) = Option (List (Val k × (Val v × Unit {0})))
  Val (struct fs) = Vals fs

  pub Vals : Fields → Type 0
  Vals nil = Unit {0}
  Vals (cons t fs) = Val t × Vals fs

-- reflect.Zero
abbrev mutual
  pub zero_val : (t : GoType) → Val t
  zero_val bool = false
  zero_val int8 = 0
  zero_val uint8 = 0
  zero_val float64 = 0
  zero_val string = []
  zero_val guid = empty_guid
  zero_val other = true
  zero_val (int w) = 0
  zero_val (uint w) = 0
  zero_val (ptr t) = none
  zero_val (slice t) = none
  zero_val (map k v) = none
  zero_val (struct fs) = zero_vals fs

  pub zero_vals : (fs : Fields) → Vals fs
  zero_vals nil = tt
  zero_vals (cons t fs) = (zero_val t, zero_vals fs)
