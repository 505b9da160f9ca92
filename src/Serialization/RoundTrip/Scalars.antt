-- ===== src/Serialization/RoundTrip/Scalars.antt =====
-- Round trips of the values that hold no other values (serialization/marshal.go,
-- serialization/unmarshal.go).
use phabrik.Base.{
  ℕ, zero, suc, ◌*◌, ◌%◌, ◌^◌, ◌<◌, ◌≡◌, refl, ap, sym, ◌∙◌, inl, inr, Bool, true, false, List, [],
  ◌∷◌, ◌++◌, Result, ok, ◌>>=◌, arith, length, length-append, ◌==◌, Bool-cases, le_bytes,
  length-le_bytes, le_value-le_bytes,
}
use phabrik.Serialization.State.{DecodeState, EncodeState, write, read_byte, advance, advance_zero}
use phabrik.Serialization.TypeMeta.{meta, is_empty_meta, is_base_meta}
use phabrik.Serialization.Compress.{write_compressed, read_compressed}
use phabrik.Serialization.Compress.RoundTrip.{IsSize, InRange}
use phabrik.Serialization.Utf16.{
  AreRunes, encode_rune, utf16_encode, utf16_decode-encode, utf16_encode-AreUnits, unit_bytes,
  bytes_units-unit_bytes, length-unit_bytes,
}
use phabrik.Serialization.GoType.{
  Width, w16, w32, w64, bool, int8, uint8, float64, string, guid, int, uint, bytes_of,
}
use phabrik.Serialization.Guid
use phabrik.Serialization.Guid.{
  Guid, IsGuid, guid_bytes, length-guid_bytes, guid_of_bytes-guid_bytes, is_empty, is_empty_lem,
  empty_guid,
}
use phabrik.Serialization.Marshal.{encode, write_compressed_uint32}
use phabrik.Serialization.Unmarshal.{Decoded, decode, sign_extend, read_compressed_uint32}
use phabrik.Serialization.RoundTrip.Steps.{
  Emits, Emits-write, Emits-bind, Decodes-bind, Decodes-map, Decodes-read_byte, Decodes-read_binary,
  compressed_steps, count_steps,
}
use phabrik.Serialization.RoundTrip.Parts.{RoundTrips}

module _ {A : Type 0} (enc : A → EncodeState → Result EncodeState)
    (dec : ℕ → A → DecodeState → Decoded A) where
  -- A value that its meta alone stands for.
  pub empty-RoundTrips :
      (v : A) (m : ℕ)
      → Emits (enc v) (m ∷ [])
      → (m == meta.scope_end) ≡ false
      → ((old : A) (s : DecodeState) → dec m old s ≡ ok (v, s))
      → RoundTrips enc dec v
  empty-RoundTrips v m e n d = record {
    first = m;
    tail = [];
    emits = e;
    not_end = n;
    reads = λ l old s rest h. rw (advance_zero s) (d old s);
  }

not_zero : (n : ℕ) → (suc n == 0) ≡ false
not_zero n = ground arith

pub bool-RoundTrips : (v : Bool) → RoundTrips (encode bool) (decode bool) v
unfolding encode decode is_empty_meta
bool-RoundTrips true =
    empty-RoundTrips (encode bool) (decode bool) true 0x42 (Emits-write _) refl (λ old s. refl)
bool-RoundTrips false =
    empty-RoundTrips (encode bool) (decode bool) false 0x72 (Emits-write _) refl (λ old s. refl)

pub int8-RoundTrips : (v : ℕ) → v < 256 → RoundTrips (encode int8) (decode int8) v
unfolding encode decode is_empty_meta
int8-RoundTrips zero h =
    empty-RoundTrips (encode int8) (decode int8) 0 0x43 (Emits-write _) refl (λ old s. refl)
int8-RoundTrips (suc n) h = record {
  first = meta.char;
  tail = suc n ∷ [];
  emits = λ top below. rw (not_zero n) (
      Emits-bind (write (meta.char ∷ [])) (write (suc n ∷ [])) (meta.char ∷ []) (suc n ∷ [])
        (Emits-write _) (Emits-write _) top below);
  not_end = refl;
  reads = λ l old. Decodes-map read_byte (λ b. b) (suc n ∷ []) (suc n) (Decodes-read_byte (suc n));
}

pub uint8-RoundTrips : (v : ℕ) → v < 256 → RoundTrips (encode uint8) (decode uint8) v
unfolding encode decode is_empty_meta
uint8-RoundTrips zero h =
    empty-RoundTrips (encode uint8) (decode uint8) 0 0x44 (Emits-write _) refl (λ old s. refl)
uint8-RoundTrips (suc n) h = record {
  first = meta.u_char;
  tail = suc n ∷ [];
  emits = λ top below. rw (not_zero n) (
      Emits-bind (write (meta.u_char ∷ [])) (write (suc n ∷ [])) (meta.u_char ∷ []) (suc n ∷ [])
        (Emits-write _) (Emits-write _) top below);
  not_end = refl;
  reads = λ l old. Decodes-map read_byte (λ b. b) (suc n ∷ []) (suc n) (Decodes-read_byte (suc n));
}

pub float64-RoundTrips : (v : ℕ) → v < 2 ^ 64 → RoundTrips (encode float64) (decode float64) v
unfolding encode decode is_empty_meta
float64-RoundTrips zero h =
    empty-RoundTrips (encode float64) (decode float64) 0 0x4B (Emits-write _) refl (λ old s. refl)
float64-RoundTrips (suc n) h = record {
  first = meta.double;
  tail = le_bytes 8 (suc n);
  emits = λ top below. rw (not_zero n) (
      Emits-bind (write (meta.double ∷ [])) (write (le_bytes 8 (suc n))) (meta.double ∷ []) _
        (Emits-write _) (Emits-write _) top below);
  not_end = refl;
  reads = λ l old s rest u.
      rw (Decodes-read_binary 8 (le_bytes 8 (suc n)) (length-le_bytes 8 (suc n)) s rest u)
        (ap (λ k. ok (k, advance s (length (le_bytes 8 (suc n))))) (le_value-le_bytes 8 (suc n) h));
}

bytes_of-IsSize : (w : Width) → IsSize (bytes_of w)
bytes_of-IsSize w16 = inl refl
bytes_of-IsSize w32 = inr (inl refl)
bytes_of-IsSize w64 = inr (inr refl)

-- A number that is not zero, from what its encoder and decoder are.
number-RoundTrips :
    (enc : ℕ → EncodeState → Result EncodeState) (dec : ℕ → ℕ → DecodeState → Decoded ℕ)
    (signed : Bool) (w : Width) (m v : ℕ) (narrow : ℕ → ℕ)
    → InRange signed (bytes_of w) v
    → 0 < v
    → ((s : EncodeState)
        → enc v s ≡ (do s' ← write (m ∷ []) s; write_compressed signed (bytes_of w) v s'))
    → (m == meta.scope_end) ≡ false
    → ((old : ℕ) (s : DecodeState)
        → dec m old s ≡ (do (v, s') ← read_compressed (bytes_of w) s; ok (narrow v, s')))
    → narrow v ≡ v
    → RoundTrips enc dec v
number-RoundTrips enc dec signed w m v narrow h pos e n d k =
    let (bytes, emits, reads) = compressed_steps signed (bytes_of w) v (bytes_of-IsSize w) h pos in
    record {
      first = m;
      tail = bytes;
      emits = λ top below.
          e _ ∙ Emits-bind (write (m ∷ [])) _ (m ∷ []) bytes (Emits-write _) emits top below;
      not_end = n;
      reads = λ l old s rest u.
          d old s
          ∙ Decodes-map (read_compressed (bytes_of w)) narrow bytes v reads s rest u
          ∙ ap (λ x. ok (x, advance s (length bytes))) k;
    }

pub uint-RoundTrips :
    (w : Width) (v : ℕ)
    → InRange false (bytes_of w) v
    → RoundTrips (encode (uint w)) (decode (uint w)) v
unfolding encode decode is_empty_meta
uint-RoundTrips w16 zero h =
    empty-RoundTrips (encode (uint w16)) (decode (uint w16)) 0 0x46 (Emits-write _) refl
      (λ old s. refl)
uint-RoundTrips w32 zero h =
    empty-RoundTrips (encode (uint w32)) (decode (uint w32)) 0 0x48 (Emits-write _) refl
      (λ old s. refl)
uint-RoundTrips w64 zero h =
    empty-RoundTrips (encode (uint w64)) (decode (uint w64)) 0 0x4A (Emits-write _) refl
      (λ old s. refl)
uint-RoundTrips w16 (suc n) h =
    number-RoundTrips (encode (uint w16)) (decode (uint w16)) false w16 meta.u_short (suc n)
      (λ v. v % 256 ^ 2) h (omega arith) (λ s. rw (not_zero n)) refl (λ old s. refl) (omega arith)
uint-RoundTrips w32 (suc n) h =
    number-RoundTrips (encode (uint w32)) (decode (uint w32)) false w32 meta.u_int32 (suc n)
      (λ v. v % 256 ^ 4) h (omega arith) (λ s. rw (not_zero n)) refl (λ old s. refl) (omega arith)
uint-RoundTrips w64 (suc n) h =
    number-RoundTrips (encode (uint w64)) (decode (uint w64)) false w64 meta.u_int64 (suc n)
      (λ v. v % 256 ^ 8) h (omega arith) (λ s. rw (not_zero n)) refl (λ old s. refl) (omega arith)

sign_extend_lem : (w : Width) (v : ℕ) → InRange true (bytes_of w) v → sign_extend w v ≡ v
unfolding sign_extend
sign_extend_lem w16 v h = ground arith
sign_extend_lem w32 v h = ground arith
sign_extend_lem w64 v h = ground arith

pub int-RoundTrips :
    (w : Width) (v : ℕ)
    → InRange true (bytes_of w) v
    → RoundTrips (encode (int w)) (decode (int w)) v
unfolding encode decode is_empty_meta
int-RoundTrips w16 zero h =
    empty-RoundTrips (encode (int w16)) (decode (int w16)) 0 0x45 (Emits-write _) refl
      (λ old s. refl)
int-RoundTrips w32 zero h =
    empty-RoundTrips (encode (int w32)) (decode (int w32)) 0 0x47 (Emits-write _) refl
      (λ old s. refl)
int-RoundTrips w64 zero h =
    empty-RoundTrips (encode (int w64)) (decode (int w64)) 0 0x49 (Emits-write _) refl
      (λ old s. refl)
int-RoundTrips w16 (suc n) h =
    number-RoundTrips (encode (int w16)) (decode (int w16)) true w16 meta.short (suc n)
      (sign_extend w16) h (omega arith) (λ s. rw (not_zero n)) refl (λ old s. refl)
      (sign_extend_lem w16 (suc n) h)
int-RoundTrips w32 (suc n) h =
    number-RoundTrips (encode (int w32)) (decode (int w32)) true w32 meta.int32 (suc n)
      (sign_extend w32) h (omega arith) (λ s. rw (not_zero n)) refl (λ old s. refl)
      (sign_extend_lem w32 (suc n) h)
int-RoundTrips w64 (suc n) h =
    number-RoundTrips (encode (int w64)) (decode (int w64)) true w64 meta.int64 (suc n)
      (sign_extend w64) h (omega arith) (λ s. rw (not_zero n)) refl (λ old s. refl)
      (sign_extend_lem w64 (suc n) h)

utf16_pos : (r : ℕ) (rs : List ℕ) → 0 < length (utf16_encode (r ∷ rs))
unfolding utf16_encode encode_rune
utf16_pos r rs = ground arith

pub string-RoundTrips : (v : List ℕ) → AreRunes v → RoundTrips (encode string) (decode string) v
unfolding encode decode is_empty_meta
string-RoundTrips [] h =
    empty-RoundTrips (encode string) (decode string) [] 0xCD (Emits-write _) refl (λ old s. refl)
string-RoundTrips (r ∷ rs) h =
    let units = utf16_encode (r ∷ rs) in
    let (count, emits, reads) = count_steps (length units) in
    record {
      first = 0x8D;
      tail = count ++ unit_bytes units;
      emits =
          Emits-bind (write (0x8D ∷ [])) _ (0x8D ∷ []) (count ++ unit_bytes units) (Emits-write _) (
            Emits-bind (write_compressed_uint32 (length units)) _ count (unit_bytes units) emits
              (Emits-write _));
      not_end = refl;
      reads = λ l old.
          Decodes-bind read_compressed_uint32 _ count (unit_bytes units) (length units) (r ∷ rs)
            (reads (utf16_pos r rs)
              (omega (arith, length-append count (unit_bytes units), length-unit_bytes units)))
            (λ s rest u. rw (
              Decodes-read_binary (2 * length units) (unit_bytes units) (length-unit_bytes units) s
                  rest u,
              bytes_units-unit_bytes units (utf16_encode-AreUnits (r ∷ rs) h),
              utf16_decode-encode (r ∷ rs) h,
            ));
    }

pub guid-RoundTrips : (v : Guid) → IsGuid v → RoundTrips (encode guid) (decode guid) v
unfolding encode decode is_empty_meta Guid.marshal Guid.unmarshal is_base_meta
guid-RoundTrips v h = elim (Bool-cases (is_empty v)) [
  | inl e ↦
      empty-RoundTrips (encode guid) (decode guid) v 0x4C
        (λ top below. rw e (Emits-write _ top below)) refl
        (λ old s. ap (λ g. ok (g, s)) (sym (is_empty_lem v e)))
  | inr e ↦ record {
    first = meta.guid;
    tail = guid_bytes v;
    emits = λ top below. rw e (
        Emits-bind (write (meta.guid ∷ [])) _ (meta.guid ∷ []) (guid_bytes v) (Emits-write _)
          (Emits-write _) top below);
    not_end = refl;
    reads = λ l old s rest u. rw (
      Decodes-read_binary 16 (guid_bytes v) (length-guid_bytes v h) s rest u,
      guid_of_bytes-guid_bytes v h,
    );
  }
]
