-- ===== src/Serialization/Marshal.antt =====
-- serialization/marshal.go: the encoder over reflected values.
--
-- `encode` is encodeState.value, a case for each Kind; the loops over fields and elements are the
-- combinators `encode_field` and `encode_elems`.
use Prim.Native.Nat.{bit_or}
use phabrik.Base.{
  ℕ, ◌+◌, ◌%◌, ◌^◌, Bool, true, false, List, [], ◌∷◌, ◌++◌, none, some, Result, ok, err, panic,
  errorf, ◌==◌, if◌then◌else◌, ◌>>=◌, le_bytes, length,
}
use phabrik.Serialization.State.{EncodeState, write, push_buffer, pop_buffer}
use phabrik.Serialization.TypeMeta.{meta}
use phabrik.Serialization.Compress.{write_compressed}
use phabrik.Serialization.Utf16.{utf16_encode, unit_bytes}
use phabrik.Serialization.GoType.{
  GoType, Fields, w16, w32, w64, bool, int8, uint8, float64, string, guid, other, int, uint, ptr,
  slice, map, struct, nil, cons, Val, Vals, bytes_of,
}
use phabrik.Serialization.Guid

-- kindToFabricSerializationType, on the kind of a type.
unfoldable pub kind_meta : GoType → ℕ
kind_meta uint8 = meta.u_char
kind_meta int8 = meta.char
kind_meta (uint w16) = meta.u_short
kind_meta (uint w32) = meta.u_int32
kind_meta (uint w64) = meta.u_int64
kind_meta (int w16) = meta.short
kind_meta (int w32) = meta.int32
kind_meta (int w64) = meta.int64
kind_meta float64 = meta.double
kind_meta bool = meta.bool
kind_meta string = meta.w_string
kind_meta (struct fs) = meta.object
kind_meta guid = meta.object
kind_meta (ptr t) = meta.pointer
kind_meta (slice t) = meta.not_a_meta
kind_meta (map k v) = meta.not_a_meta
kind_meta other = meta.not_a_meta

-- The meta of a slice that has elements, by the kind of these.
unfoldable pub slice_meta : GoType → Result ℕ
unfolding kind_meta
slice_meta string = ok meta.u_int32
slice_meta (ptr t) = ok meta.u_int32
slice_meta t =
    if kind_meta t == meta.not_a_meta
    then err (errorf "unsupported slice type %v")
    else ok (bit_or (kind_meta t) meta.array)

-- The case reflect.Slice of writeEmpty.
unfoldable pub empty_slice_meta : GoType → Result ℕ
unfolding kind_meta
empty_slice_meta string = ok (bit_or meta.empty_value_bit meta.u_int32)
empty_slice_meta (ptr t) = ok (bit_or meta.empty_value_bit meta.u_int32)
empty_slice_meta (struct fs) = ok (bit_or (bit_or meta.empty_value_bit meta.object) meta.array)
empty_slice_meta guid = ok (bit_or (bit_or meta.empty_value_bit meta.object) meta.array)
empty_slice_meta t =
    if kind_meta t == meta.not_a_meta
    then err (errorf "unsupported marshal empty slice type %v")
    else ok (bit_or (bit_or meta.empty_value_bit (kind_meta t)) meta.array)

-- The meta that writeEmpty writes.
unfoldable pub empty_meta : (t : GoType) → Val t → Result ℕ
unfolding empty_slice_meta
empty_meta bool true = ok (bit_or meta.empty_value_bit meta.bool)
empty_meta bool false = ok (bit_or meta.empty_value_bit meta.bool_false)
empty_meta string v = ok (bit_or (bit_or meta.empty_value_bit meta.array) meta.w_string)
empty_meta (ptr t) v = ok (bit_or meta.empty_value_bit meta.pointer)
empty_meta (slice t) v = empty_slice_meta t
empty_meta (map k u) v = ok (bit_or meta.empty_value_bit meta.array)
empty_meta (struct fs) v = err (errorf "unsupported marshal empty type %v")
empty_meta guid v = err (errorf "unsupported marshal empty type %v")
empty_meta other v = err (errorf "unsupported marshal empty type %v")
empty_meta int8 v = ok (bit_or meta.empty_value_bit (kind_meta int8))
empty_meta uint8 v = ok (bit_or meta.empty_value_bit (kind_meta uint8))
empty_meta float64 v = ok (bit_or meta.empty_value_bit (kind_meta float64))
empty_meta (int w) v = ok (bit_or meta.empty_value_bit (kind_meta (int w)))
empty_meta (uint w) v = ok (bit_or meta.empty_value_bit (kind_meta (uint w)))

unfoldable pub write_type_meta : ℕ → EncodeState → Result EncodeState
write_type_meta m s = write (m ∷ []) s

unfoldable pub write_empty : (t : GoType) → Val t → EncodeState → Result EncodeState
unfolding empty_meta write_type_meta
write_empty t v s = do m ← empty_meta t v; write_type_meta m s

-- writeCompressedUint32 of a uint32 conversion.
unfoldable pub write_compressed_uint32 : ℕ → EncodeState → Result EncodeState
write_compressed_uint32 n s = write_compressed false 4 (n % 2 ^ 32) s

-- The object header: its size, no flags, three bytes of padding.
unfoldable pub object_header : ℕ → List ℕ
object_header size = le_bytes 4 (size % 2 ^ 32) ++ (0 ∷ 0 ∷ 0 ∷ 0 ∷ [])

-- 3 counts the bytes of the scope's begin and end and the object's end, 8 those of the header.
unfoldable pub object_scope_end : EncodeState → Result EncodeState
unfolding object_header write_type_meta
object_scope_end s = do
  (objbuf, s1) ← pop_buffer s
  s2 ← write_type_meta meta.object s1
  s3 ← write (object_header (length objbuf + 3 + 8)) s2
  s4 ← write_type_meta meta.scope_begin s3
  s5 ← write objbuf s4
  s6 ← write_type_meta meta.scope_end s5
  write_type_meta meta.object_end s6

unfoldable pub encode_struct :
    {A : Type 0} → (A → EncodeState → Result EncodeState) → A → EncodeState → Result EncodeState
encode_struct enc v s = do s' ← enc v (push_buffer s); object_scope_end s'

unfoldable pub encode_field :
    {A B : Type 0}
    → (A → EncodeState → Result EncodeState)
    → (B → EncodeState → Result EncodeState)
    → A × B
    → EncodeState
    → Result EncodeState
encode_field enc rest (v, vs) s = do s' ← enc v s; rest vs s'

unfoldable pub encode_none : Unit {0} → EncodeState → Result EncodeState
encode_none v s = ok s

unfoldable pub encode_elems :
    {A : Type 0}
    → (A → EncodeState → Result EncodeState)
    → List A
    → EncodeState
    → Result EncodeState
encode_elems enc [] s = ok s
encode_elems enc (x ∷ xs) s = do s' ← enc x s; encode_elems enc xs s'

-- The case reflect.Slice, with the elements' type and encoder.
unfoldable pub encode_slice :
    {A : Type 0}
    → GoType
    → (A → EncodeState → Result EncodeState)
    → List A
    → EncodeState
    → Result EncodeState
unfolding write_type_meta empty_slice_meta slice_meta write_compressed_uint32
encode_slice t enc [] s = do m ← empty_slice_meta t; write_type_meta m s
encode_slice t enc (x ∷ xs) s = do
  m ← slice_meta t
  s1 ← write_type_meta m s
  s2 ← write_compressed_uint32 (length (x ∷ xs)) s1
  encode_elems enc (x ∷ xs) s2

-- A zero number is written by its meta alone.
unfoldable pub encode_number :
    (t : GoType) → ℕ → Val t → (EncodeState → Result EncodeState) → EncodeState → Result EncodeState
unfolding write_empty
encode_number t n v rest s = if n == 0 then write_empty t v s else rest s

unfoldable mutual
  unfolding write_empty encode_slice encode_struct encode_field encode_none encode_number

  pub encode : (t : GoType) → Val t → EncodeState → Result EncodeState
  encode bool v s = write_empty bool v s
  encode int8 v s =
      encode_number int8 v v (λ s. do s' ← write_type_meta meta.char s; write (v ∷ []) s') s
  encode uint8 v s =
      encode_number uint8 v v (λ s. do s' ← write_type_meta meta.u_char s; write (v ∷ []) s') s
  encode (uint w) v s =
      encode_number (uint w) v v
        (λ s. do
          s' ← write_type_meta (kind_meta (uint w)) s
          write_compressed false (bytes_of w) v s')
        s
  encode (int w) v s =
      encode_number (int w) v v
        (λ s. do
          s' ← write_type_meta (kind_meta (int w)) s
          write_compressed true (bytes_of w) v s')
        s
  encode float64 v s =
      encode_number float64 v v
        (λ s. do s' ← write_type_meta meta.double s; write (le_bytes 8 v) s') s
  encode string [] s = write_empty string [] s
  encode string (r ∷ rs) s = do
    s1 ← write_type_meta (bit_or meta.w_string meta.array) s
    let str = utf16_encode (r ∷ rs)
    s2 ← write_compressed_uint32 (length str) s1
    write (unit_bytes str) s2
  encode (ptr t) none s = write_empty (ptr t) none s
  encode (ptr t) (some v) s = do s' ← write_type_meta meta.pointer s; encode t v s'
  encode (struct fs) vs s = encode_struct (encode_fields fs) vs s
  encode guid g s = Guid.marshal g s
  encode (slice t) none s = write_empty (slice t) none s
  encode (slice t) (some xs) s = encode_slice t (encode t) xs s
  encode (map k u) none s = write_empty (map k u) none s
  encode (map k u) (some entries) s =
      encode_slice (struct (cons k (cons u nil)))
        (encode_struct (encode_field (encode k) (encode_field (encode u) encode_none))) entries s
  encode other true s = write_empty other true s
  encode other false s = err (errorf "unsupported marshal type %v")

  pub encode_fields : (fs : Fields) → Vals fs → EncodeState → Result EncodeState
  encode_fields nil vs s = encode_none vs s
  encode_fields (cons t fs) vs s = encode_field (encode t) (encode_fields fs) vs s

-- The argument of Marshal: bytes, a pointer that is not nil, or anything else.
pub data Argument : Type 0 where
  bytes : List ℕ → Argument
  pointer_to : (t : GoType) → Val t → Argument
  no_pointer : Argument

unfoldable pub is_struct : GoType → Bool
is_struct (struct fs) = true
is_struct guid = true
is_struct bool = false
is_struct int8 = false
is_struct uint8 = false
is_struct float64 = false
is_struct string = false
is_struct other = false
is_struct (int w) = false
is_struct (uint w) = false
is_struct (ptr t) = false
is_struct (slice t) = false
is_struct (map k v) = false

-- s.buf.Bytes()
unfoldable pub top_bytes : EncodeState → Result (List ℕ)
top_bytes s = elim s.buf_stack [ [] ↦ panic | top ∷ _ ↦ ok top ]

unfoldable pub marshal : Argument → Result (List ℕ)
unfolding is_struct top_bytes
marshal (bytes b) = ok b
marshal no_pointer = err (errorf "marshal type must be ptr")
marshal (pointer_to t v) =
    if is_struct t
    then (do s ← encode t v (push_buffer (record { buf_stack = [] })); top_bytes s)
    else err (errorf "marshal type must be ptr to struct")
