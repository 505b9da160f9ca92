-- ===== src/Serialization/RoundTrip/Steps.antt =====
-- How the encoder's and the decoder's steps chain (serialization/marshal.go, unmarshal.go).
use phabrik.Base.{
  ℕ, zero, suc, ◌%◌, ◌^◌, ◌<◌, ◌≡◌, refl, ap, sym, ◌∙◌, inl, inr, Bool, false, List, [], ◌∷◌, ◌++◌,
  Result, ok, ◌>>=◌, arith, length, length-append, append_assoc, append-nil,
}
use phabrik.Serialization.State.{
  DecodeState, EncodeState, with_top, write, write_lem, unread, advance, advance_zero, advance_add,
  unread-advance, read_byte, read_byte_lem, read_binary, read_binary_lem,
}
use phabrik.Serialization.Compress.{write_compressed, read_compressed, compressed}
use phabrik.Serialization.Compress.RoundTrip.{
  IsSize, InRange, compressed_total, read_compressed-compressed,
}
use phabrik.Serialization.Marshal.{write_compressed_uint32}
use phabrik.Serialization.Unmarshal.{Decoded, read_compressed_uint32}

-- The encoder appends the bytes to the buffer on top.
abbrev pub Emits : (EncodeState → Result EncodeState) → List ℕ → Type 0
Emits f bytes =
    (top : List ℕ) (below : List (List ℕ))
    → f (with_top top below) ≡ ok (with_top (top ++ bytes) below)

-- The decoder takes the bytes, whatever follows, and gives the value.
abbrev pub Decodes : {A : Type 0} → (DecodeState → Decoded A) → List ℕ → A → Type 0
Decodes dec bytes v =
    (s : DecodeState) (rest : List ℕ)
    → unread s ≡ bytes ++ rest
    → dec s ≡ ok (v, advance s (length bytes))

pub Emits-write : (bytes : List ℕ) → Emits (write bytes) bytes
Emits-write bytes top below = write_lem bytes top below

pub Emits-none : Emits (λ s. ok s) []
Emits-none top below = rw append-nil

pub Emits-bind :
    (f g : EncodeState → Result EncodeState) (a b : List ℕ)
    → Emits f a
    → Emits g b
    → Emits (λ s. do s' ← f s; g s') (a ++ b)
Emits-bind f g a b hf hg top below =
    rw (hf top below) (hg (top ++ a) below ∙ ap (λ t. ok (with_top t below)) (append_assoc top a b))

pub Decodes-none : {A : Type 0} (v : A) → Decodes {A = A} (λ s. ok (v, s)) [] v
Decodes-none v s rest h = rw (advance_zero s)

pub Decodes-bind :
    {A B : Type 0} (f : DecodeState → Decoded A) (g : A → DecodeState → Decoded B) (a b : List ℕ)
    (x : A) (y : B)
    → Decodes f a x
    → Decodes (g x) b y
    → Decodes (λ s. do (v, s') ← f s; g v s') (a ++ b) y
Decodes-bind f g a b x y hf hg s rest h =
    let h' : unread s ≡ a ++ (b ++ rest) = h ∙ append_assoc a b rest in
    rw (hf s (b ++ rest) h') (
      hg (advance s (length a)) rest (unread-advance s a (b ++ rest) h')
      ∙ ap (λ t. ok (y, t))
          (advance_add s (length a) (length b) ∙ ap (advance s) (sym (length-append a b))))

pub Decodes-map :
    {A B : Type 0} (f : DecodeState → Decoded A) (k : A → B) (a : List ℕ) (x : A)
    → Decodes f a x
    → Decodes (λ s. do (v, s') ← f s; ok (k v, s')) a (k x)
Decodes-map f k a x hf s rest h = rw (hf s rest h)

pub Decodes-read_byte : (b : ℕ) → Decodes read_byte (b ∷ []) b
Decodes-read_byte b s rest h = read_byte_lem s b rest h

pub Decodes-read_binary :
    (n : ℕ) (bytes : List ℕ) → length bytes ≡ n → Decodes (read_binary n) bytes bytes
Decodes-read_binary n bytes e s rest h =
    read_binary_lem n s bytes rest e h ∙ ap (λ k. ok (bytes, advance s k)) (sym e)

pub compressed_steps :
    (signed : Bool) (size v : ℕ)
    → IsSize size
    → InRange signed size v
    → 0 < v
    → (bytes : List ℕ) × Emits (write_compressed signed size v) bytes
      × Decodes (read_compressed size) bytes v
unfolding write_compressed
compressed_steps signed size v hs hr pos =
    let (bytes, e, _, _) = compressed_total signed size v hs hr pos in
    (
      bytes,
      λ top below. rw e (write_lem bytes top below),
      λ s rest h. read_compressed-compressed signed size v bytes rest s hs hr pos e h,
    )

-- A count is written in some bytes; one from 1 to 2 ^ 32 - 1 is read back.
pub count_steps :
    (n : ℕ)
    → (bytes : List ℕ) × Emits (write_compressed_uint32 n) bytes
      × (0 < n → n < 2 ^ 32 → Decodes read_compressed_uint32 bytes n)
unfolding write_compressed_uint32 read_compressed_uint32 write_compressed compressed
count_steps n = go (n % 2 ^ 32) refl
  where
    go :
        (k : ℕ)
        → n % 2 ^ 32 ≡ k
        → (bytes : List ℕ) × Emits (write_compressed false 4 (n % 2 ^ 32)) bytes
          × (0 < n
              → n < 2 ^ 32
              → Decodes (λ s. do (v, s') ← read_compressed 4 s; ok (v % 2 ^ 32, s')) bytes n)
    go zero e = ([], λ top below. rw e (write_lem [] top below), λ p l. absurd (omega arith))
    go (suc k) e =
        let (bytes, emits, dec) =
          compressed_steps false 4 (n % 2 ^ 32) (inr (inl refl)) (omega arith) (omega arith) in
        (
          bytes,
          emits,
          λ p l s rest h.
              rw (dec s rest h) (ap (λ t. ok (t, advance s (length bytes))) (omega arith)),
        )
