-- ===== src/Serialization/RoundTrip/Parts.antt =====
-- Round trips of the parts that values are made of: fields, objects, elements, slices
-- (serialization/marshal.go, serialization/unmarshal.go).
use phabrik.Base.{
  ℕ, ◌+◌, ◌-◌, ◌^◌, ◌<◌, ◌≡◌, refl, ap, sym, ◌∙◌, false, List, [], ◌∷◌, ◌++◌, some, Result, ok,
  arith, length, length-append, append_assoc, ge→ltb, ◌==◌, ==_self, le_bytes, le_value,
}
use phabrik.Serialization.State.{
  DecodeState, EncodeState, with_top, write, push_buffer, pop_buffer, unread, advance,
  unread-advance, read_byte, read_byte_lem, read_full, read_full-append,
}
use phabrik.Serialization.TypeMeta.{meta, is_empty_meta}
use phabrik.Serialization.Marshal.{
  encode_struct, encode_field, encode_none, object_header, object_scope_end, write_type_meta,
}
use phabrik.Serialization.Unmarshal.{
  Decoded, ObjectHeader, skip_type_info, or_zero, expect_type_meta, read_object_header,
  read_object_begin, seek, consume_object_end, decode_struct, decode_field, decode_none,
}
use phabrik.Serialization.RoundTrip.Steps.{
  Emits, Decodes, Emits-write, Emits-none, Emits-bind, Decodes-none, Decodes-bind, Decodes-map,
  Decodes-read_byte,
}

-- What is written for the value starts with a meta that ends no scope, and is read back, unless
-- its size passes a uint32.
pub record RoundTrips {A : Type 0} (enc : A → EncodeState → Result EncodeState)
    (dec : ℕ → A → DecodeState → Decoded A) (v : A) : Type 0 where
  pub first : ℕ
  pub tail : List ℕ
  pub emits : Emits (enc v) (first ∷ tail)
  pub not_end : (first == meta.scope_end) ≡ false
  pub reads : length (first ∷ tail) < 2 ^ 32 → (old : A) → Decodes (dec first old) tail v

-- The same for a row of fields.
pub record FieldsRoundTrip {A : Type 0} (enc : A → EncodeState → Result EncodeState)
    (dec : A → DecodeState → Decoded A) (v : A) : Type 0 where
  pub bytes : List ℕ
  pub emits : Emits (enc v) bytes
  pub reads : length bytes < 2 ^ 32 → (old : A) → Decodes (dec old) bytes v

pub none-FieldsRoundTrip : FieldsRoundTrip encode_none decode_none tt
unfolding encode_none decode_none
none-FieldsRoundTrip = record { bytes = []; emits = Emits-none; reads = λ l old. Decodes-none tt }

module _ {A B : Type 0} (enc : A → EncodeState → Result EncodeState)
    (dec : ℕ → A → DecodeState → Decoded A) (encs : B → EncodeState → Result EncodeState)
    (decs : B → DecodeState → Decoded B) where
  pub field-FieldsRoundTrip :
      (v : A) (vs : B)
      → RoundTrips enc dec v
      → FieldsRoundTrip encs decs vs
      → FieldsRoundTrip (encode_field enc encs) (decode_field dec decs) (v, vs)
  unfolding encode_field decode_field
  field-FieldsRoundTrip v vs r rs = record {
    bytes = (r.first ∷ r.tail) ++ rs.bytes;
    emits = Emits-bind (enc v) (encs vs) (r.first ∷ r.tail) rs.bytes r.emits rs.emits;
    reads = λ l old.
        Decodes-bind read_byte _ (r.first ∷ []) (r.tail ++ rs.bytes) r.first (v, vs)
          (Decodes-read_byte r.first)
          (rw r.not_end (
            Decodes-bind (dec r.first old.0) _ r.tail rs.bytes v (v, vs)
              (r.reads (omega (arith, length-append (r.first ∷ r.tail) rs.bytes)) old.0)
              (Decodes-map (decs old.1) (λ y. (v, y)) rs.bytes vs
                (rs.reads (omega (arith, length-append (r.first ∷ r.tail) rs.bytes)) old.1))));
  }

abbrev object_tail : List ℕ → List ℕ
object_tail obj =
    object_header (length obj + 3 + 8)
    ++ ((meta.scope_begin ∷ []) ++ (obj ++ ((meta.scope_end ∷ []) ++ (meta.object_end ∷ []))))

object_scope_end_lem :
    (obj top : List ℕ) (below : List (List ℕ))
    → object_scope_end (with_top obj (top ∷ below))
      ≡ ok (with_top (top ++ (meta.object ∷ object_tail obj)) below)
unfolding object_scope_end pop_buffer write_type_meta
object_scope_end_lem obj top below =
    Emits-bind (write (meta.object ∷ [])) _ (meta.object ∷ []) (object_tail obj) (Emits-write _)
      (Emits-bind (write header) _ header _ (Emits-write header) (
        Emits-bind (write (meta.scope_begin ∷ [])) _ (meta.scope_begin ∷ []) _ (Emits-write _) (
          Emits-bind (write obj) _ obj _ (Emits-write obj) (
            Emits-bind (write (meta.scope_end ∷ [])) _ (meta.scope_end ∷ []) _ (Emits-write _)
              (Emits-write (meta.object_end ∷ []))))))
      top below
  where
    header : List ℕ
    header = object_header (length obj + 3 + 8)

length-object_header : (n : ℕ) → length (object_header n) ≡ 8
unfolding object_header le_bytes
length-object_header n = refl

abbrev with_size : ℕ → DecodeState → ObjectHeader × DecodeState
with_size n s = (record { size = n; flag = 0 }, advance s 8)

read_object_header_lem :
    (n : ℕ) (rest : List ℕ) (s : DecodeState)
    → n < 2 ^ 32
    → unread s ≡ object_header n ++ rest
    → read_object_header s ≡ with_size n s
unfolding read_object_header object_header le_bytes le_value
read_object_header_lem n rest s h u =
    let e : read_full 8 (unread s) ≡ ok (object_header n, rest) =
      ap (read_full 8) u ∙ read_full-append 8 (object_header n) rest (length-object_header n) in
    rw (e, read_object_header) (ap (λ k. with_size k s) (omega arith))

expect_type_meta_lem :
    (m : ℕ) (s : DecodeState) (rest : List ℕ)
    → unread s ≡ m ∷ rest
    → expect_type_meta m s ≡ ok (advance s 1)
unfolding expect_type_meta
expect_type_meta_lem m s rest h = rw (read_byte_lem s m rest h, ==_self m)

read_object_begin_lem :
    (n : ℕ) (rest : List ℕ) (s : DecodeState)
    → n < 2 ^ 32
    → unread s ≡ object_header n ++ (meta.scope_begin ∷ rest)
    → read_object_begin meta.object s ≡ ok (some (s.pos + n), advance (advance s 8) 1)
unfolding read_object_begin skip_type_info
read_object_begin_lem n rest s h u =
    let u' : unread (advance s 8) ≡ meta.scope_begin ∷ rest =
      ap (λ k. unread (advance s k)) (sym (length-object_header n))
      ∙ unread-advance s (object_header n) (meta.scope_begin ∷ rest) u in
    rw (
      read_object_header_lem n (meta.scope_begin ∷ rest) s h u,
      expect_type_meta_lem meta.scope_begin (advance s 8) rest u',
    )

consume_object_end_lem :
    (e : ℕ) (rest : List ℕ) (s : DecodeState)
    → e ≡ s.pos + 2
    → unread s ≡ meta.scope_end ∷ meta.object_end ∷ rest
    → consume_object_end meta.object (some e) s ≡ ok (advance (advance s 1) 1)
unfolding consume_object_end seek
consume_object_end_lem e rest s h u =
    let u' : unread (advance s 1) ≡ meta.object_end ∷ rest =
      unread-advance s (meta.scope_end ∷ []) (meta.object_end ∷ rest) u in
    let k : s.pos + 2 - 2 ≡ s.pos = omega arith in
    rw (
      h,
      ge→ltb (s.pos + 2) 2 (omega arith),
      k,
      expect_type_meta_lem meta.scope_end s (meta.object_end ∷ rest) u,
      expect_type_meta_lem meta.object_end (advance s 1) rest u',
    )

length-object_tail : (obj : List ℕ) → length (object_tail obj) ≡ length obj + 11
length-object_tail obj = omega (
  arith,
  length-append (object_header (length obj + 3 + 8))
      ((meta.scope_begin ∷ []) ++ (obj ++ ((meta.scope_end ∷ []) ++ (meta.object_end ∷ [])))),
  length-object_header (length obj + 3 + 8),
  length-append obj ((meta.scope_end ∷ []) ++ (meta.object_end ∷ [])),
)

object_tail_rest :
    (obj rest : List ℕ)
    → object_tail obj ++ rest
      ≡ object_header (length obj + 3 + 8)
        ++ (meta.scope_begin ∷ (obj ++ (meta.scope_end ∷ meta.object_end ∷ rest)))
object_tail_rest obj rest = simp append_assoc

module _ {A : Type 0} (encs : A → EncodeState → Result EncodeState)
    (decs : A → DecodeState → Decoded A) (blank : A) where
  Decodes-decode_struct :
      (v old : A) (obj : List ℕ)
      → length obj + 11 < 2 ^ 32
      → Decodes (decs old) obj v
      → Decodes (decode_struct decs meta.object old) (object_tail obj) v
  unfolding decode_struct
  Decodes-decode_struct v old obj l dec s rest u =
      rw
        (
          read_object_begin_lem (length obj + 3 + 8) _ s (omega arith) u0,
          dec (advance (advance s 8) 1) _ u1,
          consume_object_end_lem (s.pos + (length obj + 3 + 8)) rest s3 (omega arith) u2,
        )
        (ap (λ k. ok (v, record { buf = s.buf; pos = k })) (omega (arith, length-object_tail obj)))
    where
      ends : List ℕ
      ends = meta.scope_end ∷ meta.object_end ∷ rest

      s3 : DecodeState
      s3 = advance (advance (advance s 8) 1) (length obj)

      u0 : unread s ≡ object_header (length obj + 3 + 8) ++ (meta.scope_begin ∷ (obj ++ ends))
      u0 = u ∙ object_tail_rest obj rest

      u1 : unread (advance (advance s 8) 1) ≡ obj ++ ends
      u1 = unread-advance (advance s 8) (meta.scope_begin ∷ []) (obj ++ ends) (
          ap (λ k. unread (advance s k)) (sym (length-object_header (length obj + 3 + 8)))
          ∙ unread-advance s (object_header (length obj + 3 + 8)) (meta.scope_begin ∷ (obj ++ ends))
              u0)

      u2 : unread s3 ≡ ends
      u2 = unread-advance (advance (advance s 8) 1) obj ends u1

  pub struct-RoundTrips :
      (v : A)
      → FieldsRoundTrip encs decs v
      → RoundTrips
          (encode_struct encs)
          (λ m old s. or_zero blank m s (decode_struct decs m old s))
          v
  unfolding encode_struct push_buffer or_zero is_empty_meta
  struct-RoundTrips v r = record {
    first = meta.object;
    tail = object_tail r.bytes;
    emits = λ top below. rw (r.emits [] (top ∷ below)) (object_scope_end_lem r.bytes top below);
    not_end = refl;
    reads = λ l old.
        Decodes-decode_struct v old r.bytes (omega (arith, length-object_tail r.bytes))
          (r.reads (omega (arith, length-object_tail r.bytes)) old);
  }
