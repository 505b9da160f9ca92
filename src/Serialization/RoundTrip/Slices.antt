-- ===== src/Serialization/RoundTrip/Slices.antt =====
-- Round trips of pointers, elements and slices (serialization/marshal.go,
-- serialization/unmarshal.go).
use phabrik.Base.{
  ℕ, suc, ◌+◌, ◌^◌, ◌≤◌, ◌<◌, ◌≡◌, refl, true, false, List, [], ◌∷◌, ◌++◌, none, some, Result, ok,
  ◌>>=◌, arith, length, length-append, ◌==◌,
}
use phabrik.Serialization.State.{DecodeState, EncodeState, write, read_byte}
use phabrik.Serialization.TypeMeta.{meta, is_empty_meta}
use phabrik.Serialization.GoType.{GoType}
use phabrik.Serialization.Marshal.{
  encode_elems, encode_slice, write_type_meta, write_compressed_uint32, slice_meta,
}
use phabrik.Serialization.Unmarshal.{
  Decoded, or_zero, decode_ptr, decode_elems, decode_slice, is_slice_meta, read_compressed_uint32,
}
use phabrik.Serialization.RoundTrip.Steps.{
  Emits, Decodes, Emits-write, Emits-none, Emits-bind, Decodes-none, Decodes-bind, Decodes-map,
  Decodes-read_byte, count_steps,
}
use phabrik.Serialization.RoundTrip.Parts.{RoundTrips}

module _ {A : Type 0} (enc : A → EncodeState → Result EncodeState)
    (dec : ℕ → A → DecodeState → Decoded A) (blank : A) where
  abbrev pub AllRoundTrip : List A → Type 0
  AllRoundTrip [] = Unit {0}
  AllRoundTrip (x ∷ xs) = RoundTrips enc dec x × AllRoundTrip xs

  record ElemsRoundTrip (xs : List A) : Type 0 where
    bytes : List ℕ
    emits : Emits (encode_elems enc xs) bytes
    long : length xs ≤ length bytes
    reads : length bytes < 2 ^ 32 → Decodes (decode_elems dec blank (length xs)) bytes xs

  elems-ElemsRoundTrip : (xs : List A) → AllRoundTrip xs → ElemsRoundTrip xs
  unfolding encode_elems decode_elems
  elems-ElemsRoundTrip [] h = record {
    bytes = [];
    emits = Emits-none;
    long = omega arith;
    reads = λ l. Decodes-none [];
  }
  elems-ElemsRoundTrip (x ∷ xs) (r, h) =
      let rs = elems-ElemsRoundTrip xs h in
      let total : length ((r.first ∷ r.tail) ++ rs.bytes) ≡ suc (length r.tail) + length rs.bytes =
        length-append (r.first ∷ r.tail) rs.bytes in
      record {
        bytes = (r.first ∷ r.tail) ++ rs.bytes;
        emits =
            Emits-bind (enc x) (encode_elems enc xs) (r.first ∷ r.tail) rs.bytes r.emits rs.emits;
        long = omega (arith, total, rs.long);
        reads = λ l.
            Decodes-bind read_byte _ (r.first ∷ []) (r.tail ++ rs.bytes) r.first (x ∷ xs)
              (Decodes-read_byte r.first)
              (Decodes-bind (dec r.first blank) _ r.tail rs.bytes x (x ∷ xs)
                (r.reads (omega (arith, total)) blank)
                (Decodes-map (decode_elems dec blank (length xs)) (λ ys. x ∷ ys) rs.bytes xs
                  (rs.reads (omega (arith, total)))));
      }

  -- A slice with elements, whose type has a meta.
  pub slice-RoundTrips :
      (t : GoType) (m : ℕ) (x : A) (xs : List A)
      → slice_meta t ≡ ok m
      → is_empty_meta m ≡ false
      → (m == meta.scope_end) ≡ false
      → is_slice_meta t m ≡ true
      → AllRoundTrip (x ∷ xs)
      → RoundTrips
          (λ v s. elim v [ none ↦ ok s | some ys ↦ encode_slice t enc ys s ])
          (λ m old s. or_zero none m s (decode_slice t dec blank m s))
          (some (x ∷ xs))
  unfolding encode_slice decode_slice or_zero write_type_meta
  slice-RoundTrips t m x xs em ee en es h =
      let rs = elems-ElemsRoundTrip (x ∷ xs) h in
      let (count, emits_count, reads_count) = count_steps (length (x ∷ xs)) in
      let total : length (count ++ rs.bytes) ≡ length count + length rs.bytes =
        length-append count rs.bytes in
      record {
        first = m;
        tail = count ++ rs.bytes;
        emits = λ top below. rw em (
            Emits-bind (write (m ∷ [])) _ (m ∷ []) (count ++ rs.bytes) (Emits-write (m ∷ []))
              (Emits-bind (write_compressed_uint32 (length (x ∷ xs))) _ count rs.bytes emits_count
                rs.emits)
              top below);
        not_end = en;
        reads = λ l old.
            rw (ee, es)
              (Decodes-bind read_compressed_uint32 _ count rs.bytes (length (x ∷ xs))
                (some (x ∷ xs)) (reads_count (omega arith) (omega (arith, total, rs.long)))
                (Decodes-map (decode_elems dec blank (length (x ∷ xs))) some rs.bytes (x ∷ xs)
                  (rs.reads (omega (arith, total)))));
      }

  pub ptr-RoundTrips :
      (v : A)
      → RoundTrips enc dec v
      → RoundTrips
          (λ v s. elim v [
            | none ↦ ok s
            | some y ↦ (do s' ← write_type_meta meta.pointer s; enc y s')
          ])
          (λ m old s. or_zero none m s (decode_ptr dec blank s))
          (some v)
  unfolding decode_ptr or_zero write_type_meta is_empty_meta
  ptr-RoundTrips v r = record {
    first = meta.pointer;
    tail = r.first ∷ r.tail;
    emits =
        Emits-bind (write (meta.pointer ∷ [])) (enc v) (meta.pointer ∷ []) (r.first ∷ r.tail)
          (Emits-write _) r.emits;
    not_end = refl;
    reads = λ l old.
        Decodes-bind read_byte _ (r.first ∷ []) r.tail r.first (some v) (Decodes-read_byte r.first)
          (Decodes-map (dec r.first blank) some r.tail v (r.reads (omega arith) blank));
  }
