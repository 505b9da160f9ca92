-- ===== src/Serialization/Unmarshal.antt =====
-- serialization/unmarshal.go: the decoder into reflected values.
--
-- `decode` is decodeState.value, a case for each Kind. It is given the value that the target holds,
-- since a struct that ends early keeps what its other fields held.
use Prim.Native.Nat.{bit_or}
use phabrik.Base.{
  ℕ, zero, suc, ◌+◌, ◌-◌, ◌*◌, ◌%◌, ◌^◌, Bool, true, false, not, ◌||◌, List, [], ◌∷◌, Option, none,
  some, Result, ok, err, panic, eof, errorf, ◌==◌, ltb, leb, if◌then◌else◌, ◌>>=◌, ◌>>◌, guard,
  le_value, length, take, drop,
}
use phabrik.Serialization.State.{DecodeState, unread, advance, read_full, read_byte, read_binary}
use phabrik.Serialization.TypeMeta.{meta, is_empty_meta}
use phabrik.Serialization.Compress.{read_compressed}
use phabrik.Serialization.Utf16.{utf16_decode, bytes_units}
use phabrik.Serialization.GoType.{
  GoType, Fields, Width, bool, int8, uint8, float64, string, guid, other, int, uint, ptr, slice,
  map, struct, nil, cons, Val, Vals, bytes_of, zero_val,
}
use phabrik.Serialization.Marshal.{is_struct}
use phabrik.Serialization.Guid

abbrev pub Decoded : Type 0 → Type 0
Decoded A = Result (A × DecodeState)

unfoldable pub read_type_meta : DecodeState → Decoded ℕ
read_type_meta s = read_byte s

unfoldable pub expect_type_meta : ℕ → DecodeState → Result DecodeState
unfolding read_type_meta
expect_type_meta expected s = do
  (m, s') ← read_type_meta s
  if m == expected then ok s' else err (errorf "got %v expect %v")

unfoldable pub read_compressed_uint32 : DecodeState → Decoded ℕ
read_compressed_uint32 s = do (v, s') ← read_compressed 4 s; ok (v % 2 ^ 32, s')

pub record ObjectHeader : Type 0 where
  pub size : ℕ
  pub flag : ℕ

-- binary.Read of the header, whose error is ignored: a header cut short reads as zero, up to the end.
unfoldable pub read_object_header : DecodeState → ObjectHeader × DecodeState
read_object_header s = elim (read_full 8 (unread s)) [
  | ok (bs, _) ↦
      (record { size = le_value (take 4 bs); flag = le_value (take 1 (drop 4 bs)) }, advance s 8)
  | err _ ↦ (record { size = 0; flag = 0 }, advance s (length (unread s)))
  | panic ↦ (record { size = 0; flag = 0 }, advance s (length (unread s)))
]

-- The type information that a header may announce is read past.
unfoldable pub skip_type_info : ObjectHeader → DecodeState → Result DecodeState
unfolding read_compressed_uint32
skip_type_info header s =
    if header.flag % 2 == 1
    then (do
      (len, s') ← read_compressed_uint32 s
      guard (not (len == 0)) (errorf "typeinfo len must > 0")
      guard (leb len (length (unread s'))) eof
      ok (advance s' len))
    else ok s

-- The end position and 2 more, since it is signed in the source; `none` is the -1 for what is no
-- object.
unfoldable pub read_object_begin : ℕ → DecodeState → Decoded (Option ℕ)
unfolding read_object_header skip_type_info expect_type_meta
read_object_begin m s =
    if m == meta.object
    then (let (header, s1) = read_object_header s in
        do
          s2 ← skip_type_info header s1
          s3 ← expect_type_meta meta.scope_begin s2
          ok (some (s.pos + header.size), s3))
    else ok (none, s)

-- s.inner.Seek from the start, to a position given with 2 more.
unfoldable pub seek : Option ℕ → DecodeState → Result DecodeState
seek none s = err (errorf "bytes.Reader.Seek: negative position")
seek (some e) s =
    if ltb e 2
    then err (errorf "bytes.Reader.Seek: negative position")
    else ok (record s { pos = e - 2 })

unfoldable pub consume_object_end : ℕ → Option ℕ → DecodeState → Result DecodeState
unfolding seek expect_type_meta
consume_object_end m endpos s =
    if m == meta.object
    then (do
      s1 ← seek endpos s
      s2 ← expect_type_meta meta.scope_end s1
      expect_type_meta meta.object_end s2)
    else ok s

-- An empty value of any kind but bool is zero, whatever its base type.
unfoldable pub or_zero : {A : Type 0} → A → ℕ → DecodeState → Decoded A → Decoded A
unfolding is_empty_meta
or_zero blank m s rest = if is_empty_meta m then ok (blank, s) else rest

unfoldable pub decode_bool : ℕ → DecodeState → Decoded Bool
unfolding is_empty_meta
decode_bool m s =
    if is_empty_meta m
    then (if m == bit_or meta.bool meta.empty_value_bit
        then ok (true, s)
        else (if m == bit_or meta.bool_false meta.empty_value_bit
            then ok (false, s)
            else err (errorf "expect bool got %v")))
    else err (errorf "unsupported unmarshal type %v")

-- rv.SetInt and rv.SetUint panic at a kind of the other sign; the byte is read first.
unfoldable pub decode_byte : Bool → ℕ → DecodeState → Decoded ℕ
decode_byte signed m s = do
  (v, s') ← read_byte s
  if m == meta.char
      then (if signed then ok (v, s') else panic)
      else (if m == meta.u_char
          then (if signed then panic else ok (v, s'))
          else err (errorf "expect char/uchar got %v"))

unfoldable pub decode_uint : Width → ℕ → DecodeState → Decoded ℕ
decode_uint w m s =
    if (m == meta.u_short) || ((m == meta.u_int32) || (m == meta.u_int64))
    then (do (v, s') ← read_compressed (bytes_of w) s; ok (v % 256 ^ bytes_of w, s'))
    else err (errorf "expect uint got %v")

-- The 64-bit pattern of the low bytes as a signed integer.
unfoldable pub sign_extend : Width → ℕ → ℕ
sign_extend w v =
    let low = v % 256 ^ bytes_of w in
    if ltb low (128 * 256 ^ (bytes_of w - 1)) then low else low + (2 ^ 64 - 256 ^ bytes_of w)

unfoldable pub decode_int : Width → ℕ → DecodeState → Decoded ℕ
decode_int w m s =
    if (m == meta.short) || ((m == meta.int32) || (m == meta.int64))
    then (do (v, s') ← read_compressed (bytes_of w) s; ok (sign_extend w v, s'))
    else err (errorf "expect int got %v")

unfoldable pub decode_float : ℕ → DecodeState → Decoded ℕ
decode_float m s =
    if m == meta.double
    then (do (bs, s') ← read_binary 8 s; ok (le_value bs, s'))
    else err (errorf "expect double got %v")

unfoldable pub decode_string : ℕ → DecodeState → Decoded (List ℕ)
unfolding read_compressed_uint32
decode_string m s =
    if m == bit_or meta.w_string meta.array
    then (do
      (len, s1) ← read_compressed_uint32 s
      (body, s2) ← read_binary (2 * len) s1
      ok (utf16_decode (bytes_units body), s2))
    else err (errorf "expect string got %v")

unfoldable pub decode_ptr :
    {A : Type 0} → (ℕ → A → DecodeState → Decoded A) → A → DecodeState → Decoded (Option A)
unfolding read_type_meta
decode_ptr dec blank s = do
  (objmeta, s1) ← read_type_meta s
  (v, s2) ← dec objmeta blank s1
  ok (some v, s2)

unfoldable pub decode_struct :
    {A : Type 0} → (A → DecodeState → Decoded A) → ℕ → A → DecodeState → Decoded A
unfolding read_object_begin consume_object_end
decode_struct dec m old s = do
  (endpos, s1) ← read_object_begin m s
  (v, s2) ← dec old s1
  s3 ← consume_object_end m endpos s2
  ok (v, s3)

-- One round of the loop over the fields: a scope that ends leaves the fields that are left alone.
unfoldable pub decode_field :
    {A B : Type 0}
    → (ℕ → A → DecodeState → Decoded A)
    → (B → DecodeState → Decoded B)
    → A × B
    → DecodeState
    → Decoded (A × B)
unfolding read_type_meta
decode_field dec rest (v, vs) s = do
  (m, s1) ← read_type_meta s
  if m == meta.scope_end
      then ok ((v, vs), s1)
      else (do (v', s2) ← dec m v s1; (vs', s3) ← rest vs s2; ok ((v', vs'), s3))

unfoldable pub decode_none : Unit {0} → DecodeState → Decoded (Unit {0})
decode_none v s = ok (v, s)

unfoldable pub decode_elems :
    {A : Type 0} → (ℕ → A → DecodeState → Decoded A) → A → ℕ → DecodeState → Decoded (List A)
unfolding read_type_meta
decode_elems dec blank zero s = ok ([], s)
decode_elems dec blank (suc n) s = do
  (m, s1) ← read_type_meta s
  (x, s2) ← dec m blank s1
  (xs, s3) ← decode_elems dec blank n s2
  ok (x ∷ xs, s3)

-- What a slice's meta is compared with, by the kind of its elements.
unfoldable pub is_slice_meta : GoType → ℕ → Bool
is_slice_meta string m = m == meta.u_int32
is_slice_meta (ptr t) m = m == meta.u_int32
is_slice_meta (struct fs) m = m == bit_or meta.object meta.array
is_slice_meta guid m = m == bit_or meta.object meta.array
is_slice_meta t m = true

unfoldable pub decode_slice :
    {A : Type 0}
    → GoType
    → (ℕ → A → DecodeState → Decoded A)
    → A
    → ℕ
    → DecodeState
    → Decoded (Option (List A))
unfolding read_compressed_uint32 is_slice_meta
decode_slice t dec blank m s = do
  guard (is_slice_meta t m) (errorf "[] expect array got %v")
  (len, s1) ← read_compressed_uint32 s
  (objs, s2) ← decode_elems dec blank len s1
  ok (some objs, s2)

unfoldable mutual
  unfolding or_zero decode_bool decode_byte decode_uint decode_int decode_float decode_string
      decode_ptr decode_struct decode_field decode_none decode_slice

  pub decode : (t : GoType) → ℕ → Val t → DecodeState → Decoded (Val t)
  decode bool m old s = decode_bool m s
  decode int8 m old s = or_zero 0 m s (decode_byte true m s)
  decode uint8 m old s = or_zero 0 m s (decode_byte false m s)
  decode (uint w) m old s = or_zero 0 m s (decode_uint w m s)
  decode (int w) m old s = or_zero 0 m s (decode_int w m s)
  decode float64 m old s = or_zero 0 m s (decode_float m s)
  decode string m old s = or_zero [] m s (decode_string m s)
  decode (ptr t) m old s = or_zero none m s (decode_ptr (decode t) (zero_val t) s)
  decode guid m old s = or_zero (zero_val guid) m s (Guid.unmarshal m s)
  decode (struct fs) m old s =
      or_zero (zero_val (struct fs)) m s (decode_struct (decode_fields fs) m old s)
  decode (slice t) m old s = or_zero none m s (decode_slice t (decode t) (zero_val t) m s)
  decode (map k u) m old s = or_zero none m s (
      decode_slice (struct (cons k (cons u nil)))
        (λ m old s.
          or_zero (zero_val k, (zero_val u, tt)) m s
            (decode_struct (decode_field (decode k) (decode_field (decode u) decode_none)) m old s))
        (zero_val k, (zero_val u, tt)) m s)
  decode other m old s = or_zero true m s (err (errorf "unsupported unmarshal type %v"))

  pub decode_fields : (fs : Fields) → Vals fs → DecodeState → Decoded (Vals fs)
  decode_fields nil old s = decode_none old s
  decode_fields (cons t fs) old s = decode_field (decode t) (decode_fields fs) old s

-- Unmarshal into a pointer at `old`; a target that is no pointer is refused before (`marshal` has
-- the same tests).
unfoldable pub unmarshal : List ℕ → (t : GoType) → Val t → Result (Val t)
unfolding read_type_meta
unmarshal bytes t old =
    if is_struct t
    then (do
      (m, s) ← read_type_meta (record { buf = bytes; pos = 0 })
      (v, _) ← decode t m old s
      ok v)
    else err (errorf "unmarshal type must be ptr to struct")
