-- ===== src/Serialization/RoundTrip/Values.antt =====
-- Unmarshal undoes Marshal on every well-formed value (serialization/marshal.go,
-- serialization/unmarshal.go).
use phabrik.Base.{
  ℕ, ◌^◌, ◌≤◌, ◌<◌, ◌≡◌, refl, sym, ◌∙◌, true, false, List, [], ◌∷◌, Option, none, some, Result, ok,
  inl, inr, Bool-cases, arith, length, ◌==◌, append-nil,
}
use phabrik.Serialization.State.{DecodeState, EncodeState, push_buffer, read_byte}
use phabrik.Serialization.TypeMeta.{meta, is_empty_meta}
use phabrik.Serialization.Compress.RoundTrip.{InRange}
use phabrik.Serialization.Utf16.{AreRunes}
use phabrik.Serialization.GoType.{
  GoType, Fields, w16, w32, w64, bool, int8, uint8, float64, string, guid, other, int, uint, ptr,
  slice, map, struct, nil, cons, Val, Vals, bytes_of, zero_val,
}
use phabrik.Serialization.Guid.{IsGuid}
use phabrik.Serialization.Marshal.{
  encode, encode_fields, encode_struct, encode_field, encode_none, slice_meta, empty_slice_meta,
  pointer_to, marshal, is_struct,
}
use phabrik.Serialization.Unmarshal.{
  Decoded, decode, decode_fields, decode_struct, decode_field, decode_none, or_zero, is_slice_meta,
  unmarshal,
}
use phabrik.Serialization.RoundTrip.Steps.{Emits-write}
use phabrik.Serialization.RoundTrip.Parts.{
  RoundTrips, FieldsRoundTrip, none-FieldsRoundTrip, field-FieldsRoundTrip, struct-RoundTrips,
}
use phabrik.Serialization.RoundTrip.Slices.{AllRoundTrip, slice-RoundTrips, ptr-RoundTrips}
use phabrik.Serialization.RoundTrip.Scalars.{
  empty-RoundTrips, bool-RoundTrips, int8-RoundTrips, uint8-RoundTrips, float64-RoundTrips,
  int-RoundTrips, uint-RoundTrips, string-RoundTrips, guid-RoundTrips,
}

-- The element types that slices may have.
abbrev pub IsElem : GoType → Type 0
IsElem (slice t) = ⊥
IsElem (map k u) = ⊥
IsElem other = ⊥
IsElem t = Unit {0}

abbrev pub All : {A : Type 0} → (A → Type 0) → List A → Type 0
All P [] = Unit {0}
All P (x ∷ xs) = P x × All P xs

-- A pointee, if there is one.
abbrev pub Pointee : {A : Type 0} → (A → Type 0) → Option A → Type 0
Pointee P none = Unit {0}
Pointee P (some v) = P v

-- Nil, or at least one element.
abbrev pub NilOrAll : {A : Type 0} → (A → Type 0) → Option (List A) → Type 0
NilOrAll P none = Unit {0}
NilOrAll P (some []) = ⊥
NilOrAll P (some (x ∷ xs)) = P x × All P xs

abbrev mutual
  pub IsWf : (t : GoType) → Val t → Type 0
  IsWf bool v = Unit {0}
  IsWf int8 v = v < 256
  IsWf uint8 v = v < 256
  IsWf float64 v = v < 2 ^ 64
  IsWf string v = AreRunes v
  IsWf guid v = IsGuid v
  IsWf other v = ⊥
  IsWf (int w) v = InRange true (bytes_of w) v
  IsWf (uint w) v = InRange false (bytes_of w) v
  IsWf (ptr t) v = Pointee (IsWf t) v
  IsWf (slice t) v = IsElem t × NilOrAll (IsWf t) v
  IsWf (map k u) v = NilOrAll (λ e. IsWf k e.0 × IsWf u e.1.0) v
  IsWf (struct fs) vs = AreWf fs vs

  pub AreWf : (fs : Fields) → Vals fs → Type 0
  AreWf nil vs = Unit {0}
  AreWf (cons t fs) vs = IsWf t vs.0 × AreWf fs vs.1

All-RoundTrip :
    {A : Type 0} (enc : A → EncodeState → Result EncodeState)
    (dec : ℕ → A → DecodeState → Decoded A) (blank : A) (P : A → Type 0)
    → ((v : A) → P v → RoundTrips enc dec v)
    → (xs : List A) → All P xs
    → AllRoundTrip enc dec blank xs
All-RoundTrip enc dec blank P f [] h = tt
All-RoundTrip enc dec blank P f (x ∷ xs) h = (f x h.0, All-RoundTrip enc dec blank P f xs h.1)

-- The same round trip under other names of the functions.
RoundTrips-same :
    {A : Type 0} (enc enc' : A → EncodeState → Result EncodeState)
    (dec dec' : ℕ → A → DecodeState → Decoded A) (v : A)
    → ((s : EncodeState) → enc' v s ≡ enc v s)
    → ((m : ℕ) (old : A) (s : DecodeState) → dec' m old s ≡ dec m old s)
    → RoundTrips enc dec v
    → RoundTrips enc' dec' v
RoundTrips-same enc enc' dec dec' v e d r = record {
  first = r.first;
  tail = r.tail;
  emits = λ top below. e _ ∙ r.emits top below;
  not_end = r.not_end;
  reads = λ l old s rest u. d r.first old s ∙ r.reads l old s rest u;
}

-- The metas of the slices of an element type.
elem_meta :
    (t : GoType)
    → IsElem t
    → (m : ℕ) × (slice_meta t ≡ ok m)
      × (is_empty_meta m ≡ false)
      × ((m == meta.scope_end) ≡ false)
      × (is_slice_meta t m ≡ true)
unfolding slice_meta is_empty_meta is_slice_meta
elem_meta bool h = (0x82, refl, refl, refl, refl)
elem_meta int8 h = (0x83, refl, refl, refl, refl)
elem_meta uint8 h = (0x84, refl, refl, refl, refl)
elem_meta float64 h = (0x8B, refl, refl, refl, refl)
elem_meta string h = (0x08, refl, refl, refl, refl)
elem_meta guid h = (0x80, refl, refl, refl, refl)
elem_meta other h = absurd h
elem_meta (int w16) h = (0x85, refl, refl, refl, refl)
elem_meta (int w32) h = (0x87, refl, refl, refl, refl)
elem_meta (int w64) h = (0x89, refl, refl, refl, refl)
elem_meta (uint w16) h = (0x86, refl, refl, refl, refl)
elem_meta (uint w32) h = (0x88, refl, refl, refl, refl)
elem_meta (uint w64) h = (0x8A, refl, refl, refl, refl)
elem_meta (ptr t) h = (0x08, refl, refl, refl, refl)
elem_meta (slice t) h = absurd h
elem_meta (map k u) h = absurd h
elem_meta (struct fs) h = (0x80, refl, refl, refl, refl)

empty_elem_meta :
    (t : GoType)
    → IsElem t
    → (m : ℕ) × (empty_slice_meta t ≡ ok m)
      × (is_empty_meta m ≡ true)
      × ((m == meta.scope_end) ≡ false)
unfolding empty_slice_meta is_empty_meta
empty_elem_meta bool h = (0xC2, refl, refl, refl)
empty_elem_meta int8 h = (0xC3, refl, refl, refl)
empty_elem_meta uint8 h = (0xC4, refl, refl, refl)
empty_elem_meta float64 h = (0xCB, refl, refl, refl)
empty_elem_meta string h = (0x48, refl, refl, refl)
empty_elem_meta guid h = (0xC0, refl, refl, refl)
empty_elem_meta other h = absurd h
empty_elem_meta (int w16) h = (0xC5, refl, refl, refl)
empty_elem_meta (int w32) h = (0xC7, refl, refl, refl)
empty_elem_meta (int w64) h = (0xC9, refl, refl, refl)
empty_elem_meta (uint w16) h = (0xC6, refl, refl, refl)
empty_elem_meta (uint w32) h = (0xC8, refl, refl, refl)
empty_elem_meta (uint w64) h = (0xCA, refl, refl, refl)
empty_elem_meta (ptr t) h = (0x48, refl, refl, refl)
empty_elem_meta (slice t) h = absurd h
empty_elem_meta (map k u) h = absurd h
empty_elem_meta (struct fs) h = (0xC0, refl, refl, refl)

nil_slice_RoundTrips :
    (t : GoType) → IsElem t → RoundTrips (encode (slice t)) (decode (slice t)) none
unfolding encode decode
nil_slice_RoundTrips t h =
    let (m, e, emp, n) = empty_elem_meta t h in
    empty-RoundTrips (encode (slice t)) (decode (slice t)) none m
      (λ top below. rw e (Emits-write (m ∷ []) top below)) n (λ old s. rw emp)

entry_RoundTrips :
    {A B : Type 0} (enc : A → EncodeState → Result EncodeState)
    (dec : ℕ → A → DecodeState → Decoded A) (enc' : B → EncodeState → Result EncodeState)
    (dec' : ℕ → B → DecodeState → Decoded B) (blank : A × (B × Unit {0})) (v : A × (B × Unit {0}))
    → RoundTrips enc dec v.0
    → RoundTrips enc' dec' v.1.0
    → RoundTrips
        (encode_struct (encode_field enc (encode_field enc' encode_none)))
        (λ m old s.
          or_zero blank m s
            (decode_struct (decode_field dec (decode_field dec' decode_none)) m old s))
        v
entry_RoundTrips enc dec enc' dec' blank v r r' = struct-RoundTrips _ _ blank v (
    field-FieldsRoundTrip enc dec _ _ v.0 v.1 r
      (field-FieldsRoundTrip enc' dec' _ _ v.1.0 tt r' none-FieldsRoundTrip))

slice_RoundTrips :
    (t : GoType) (f : (v : Val t) → IsWf t v → RoundTrips (encode t) (decode t) v)
    (v : Val (slice t))
    → IsWf (slice t) v
    → RoundTrips (encode (slice t)) (decode (slice t)) v
unfolding encode decode
slice_RoundTrips t f none h = nil_slice_RoundTrips t h.0
slice_RoundTrips t f (some []) h = absurd h.1
slice_RoundTrips t f (some (x ∷ xs)) h =
    let (m, e, ee, en, es) = elem_meta t h.0 in
    RoundTrips-same _ (encode (slice t)) _ (decode (slice t)) (some (x ∷ xs)) (λ s. refl)
      (λ m old s. refl)
      (slice-RoundTrips (encode t) (decode t) (zero_val t) t m x xs e ee en es
        (All-RoundTrip (encode t) (decode t) (zero_val t) (IsWf t) f (x ∷ xs) h.1))

map_RoundTrips :
    (k u : GoType) (f : (v : Val k) → IsWf k v → RoundTrips (encode k) (decode k) v)
    (g : (v : Val u) → IsWf u v → RoundTrips (encode u) (decode u) v) (v : Val (map k u))
    → IsWf (map k u) v
    → RoundTrips (encode (map k u)) (decode (map k u)) v
unfolding encode decode slice_meta is_slice_meta is_empty_meta
map_RoundTrips k u f g none h =
    empty-RoundTrips (encode (map k u)) (decode (map k u)) none 0xC0 (Emits-write _) refl
      (λ old s. refl)
map_RoundTrips k u f g (some []) h = absurd h
map_RoundTrips k u f g (some (x ∷ xs)) h =
    RoundTrips-same _ (encode (map k u)) _ (decode (map k u)) (some (x ∷ xs)) (λ s. refl)
      (λ m old s. refl)
      (slice-RoundTrips _ _ (zero_val k, (zero_val u, tt)) (struct (cons k (cons u nil))) 0x80 x xs
        refl refl refl refl
        (All-RoundTrip _ _ (zero_val k, (zero_val u, tt)) (λ e. IsWf k e.0 × IsWf u e.1.0)
          (λ v w.
            entry_RoundTrips (encode k) (decode k) (encode u) (decode u)
              (zero_val k, (zero_val u, tt)) v (f v.0 w.0) (g v.1.0 w.1))
          (x ∷ xs) h))

ptr_RoundTrips :
    (t : GoType) (f : (v : Val t) → IsWf t v → RoundTrips (encode t) (decode t) v) (v : Val (ptr t))
    → IsWf (ptr t) v
    → RoundTrips (encode (ptr t)) (decode (ptr t)) v
unfolding encode decode is_empty_meta
ptr_RoundTrips t f none h =
    empty-RoundTrips (encode (ptr t)) (decode (ptr t)) none 0x41 (Emits-write _) refl
      (λ old s. refl)
ptr_RoundTrips t f (some v) h =
    RoundTrips-same _ (encode (ptr t)) _ (decode (ptr t)) (some v) (λ s. refl) (λ m old s. refl)
      (ptr-RoundTrips (encode t) (decode t) (zero_val t) v (f v h))

mutual
  unfolding encode decode

  value_RoundTrips : (t : GoType) (v : Val t) → IsWf t v → RoundTrips (encode t) (decode t) v
  value_RoundTrips bool v h = bool-RoundTrips v
  value_RoundTrips int8 v h = int8-RoundTrips v h
  value_RoundTrips uint8 v h = uint8-RoundTrips v h
  value_RoundTrips float64 v h = float64-RoundTrips v h
  value_RoundTrips string v h = string-RoundTrips v h
  value_RoundTrips guid v h = guid-RoundTrips v h
  value_RoundTrips other v h = absurd h
  value_RoundTrips (int w) v h = int-RoundTrips w v h
  value_RoundTrips (uint w) v h = uint-RoundTrips w v h
  value_RoundTrips (ptr t) v h = ptr_RoundTrips t (value_RoundTrips t) v h
  value_RoundTrips (slice t) v h = slice_RoundTrips t (value_RoundTrips t) v h
  value_RoundTrips (map k u) v h = map_RoundTrips k u (value_RoundTrips k) (value_RoundTrips u) v h
  value_RoundTrips (struct fs) v h =
      struct-RoundTrips (encode_fields fs) (decode_fields fs) (zero_val (struct fs)) v
        (fields_RoundTrip fs v h)

  fields_RoundTrip :
      (fs : Fields) (vs : Vals fs)
      → AreWf fs vs
      → FieldsRoundTrip (encode_fields fs) (decode_fields fs) vs
  fields_RoundTrip nil vs h = none-FieldsRoundTrip
  fields_RoundTrip (cons t fs) vs h =
      field-FieldsRoundTrip (encode t) (decode t) (encode_fields fs) (decode_fields fs) vs.0 vs.1
        (value_RoundTrips t vs.0 h.0) (fields_RoundTrip fs vs.1 h.1)

unmarshal_first :
    (t : GoType) (v old : Val t) (r : RoundTrips (encode t) (decode t) v)
    → is_struct t ≡ true
    → length (r.first ∷ r.tail) < 2 ^ 32
    → unmarshal (r.first ∷ r.tail) t old ≡ ok v
unfolding unmarshal read_byte
unmarshal_first t v old r st l =
    rw (st, r.reads l old (record { buf = r.first ∷ r.tail; pos = 1 }) [] (sym (append-nil r.tail)))

marshal_struct :
    (t : GoType) (v : Val t)
    → is_struct t ≡ true
    → (r : RoundTrips (encode t) (decode t) v) → marshal (pointer_to t v) ≡ ok (r.first ∷ r.tail)
unfolding marshal push_buffer
marshal_struct t v st r = rw (st, r.emits [] [])

marshal_no_struct :
    (t : GoType) (v : Val t) (bytes : List ℕ)
    → marshal (pointer_to t v) ≡ ok bytes
    → is_struct t ≡ true
unfolding marshal
marshal_no_struct t v bytes e = elim (Bool-cases (is_struct t)) [
  | inl st ↦ st
  | inr no_st ↦ cc (rw no_st at e)
]

-- Marshal of a pointer to a struct gives bytes if its value is well-formed: integers, runes and
-- GUIDs in range, no field of an unsupported kind, and no slice or map that is empty but not nil.
pub marshal_total :
    (t : GoType) (v : Val t)
    → is_struct t ≡ true
    → IsWf t v
    → (bytes : List ℕ) × (marshal (pointer_to t v) ≡ ok bytes) × (1 ≤ length bytes)
marshal_total t v st h =
    let r = value_RoundTrips t v h in (r.first ∷ r.tail, marshal_struct t v st r, omega arith)

-- What Marshal wrote for a value that is well-formed, that is, with integers, runes and GUIDs in
-- range, no field of an unsupported kind and no slice or map that is empty but not nil, Unmarshal
-- reads as that value, whatever the target held before, if the bytes are fewer than 2 ^ 32.
pub unmarshal-marshal :
    (t : GoType) (v old : Val t) (bytes : List ℕ)
    → IsWf t v
    → marshal (pointer_to t v) ≡ ok bytes
    → length bytes < 2 ^ 32
    → unmarshal bytes t old ≡ ok v
unmarshal-marshal t v old bytes h e l =
    let r = value_RoundTrips t v h in
    let st = marshal_no_struct t v bytes e in
    let same : bytes ≡ r.first ∷ r.tail = cc (marshal_struct t v st r, e) in
    let l' : length (r.first ∷ r.tail) < 2 ^ 32 = rw same at l in
    rw same (unmarshal_first t v old r st l')
