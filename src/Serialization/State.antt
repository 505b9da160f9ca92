-- ===== src/Serialization/State.antt =====
-- The states that the encoder and the decoder of the package serialization pass on
-- (serialization/marshal.go, serialization/unmarshal.go).
use native.Mathlib.Nat.{add-zero, add_assoc}
use phabrik.Base.{
  ℕ, zero, suc, ◌+◌, ◌≡◌, ◌<◌, lt→ltb, Error, refl, List, [], ◌∷◌, ◌++◌, Result, ok, err, panic,
  eof, unexpected_eof, arith, length, length-append, take, drop, take-length, drop-length,
  drop-drop, ltb, if◌then◌else◌, ◌>>=◌, ge→ltb,
}

-- io.ReadFull on `n` bytes: an input that ends at once is io.EOF, one that ends inside is not.
unfoldable pub read_full : ℕ → List ℕ → Result (List ℕ × List ℕ)
read_full zero xs = ok ([], xs)
read_full (suc n) [] = err eof
read_full (suc n) (x ∷ xs) =
    if ltb (length xs) n then err unexpected_eof else ok (x ∷ take n xs, drop n xs)

pub read_full-append :
    (n : ℕ) (xs ys : List ℕ) → length xs ≡ n → read_full n (xs ++ ys) ≡ ok (xs, ys)
unfolding read_full
read_full-append zero [] ys h = refl
read_full-append zero (x ∷ xs) ys h = absurd (omega arith)
read_full-append (suc n) [] ys h = absurd (omega arith)
read_full-append (suc n) (x ∷ xs) ys h =
    let e : n ≡ length xs = omega arith in
    rw (
      e,
      ge→ltb (length (xs ++ ys)) (length xs) (omega (arith, length-append xs ys)),
      take-length,
      drop-length,
    )

-- An input that is too short is an error.
pub read_full-short : (n : ℕ) (xs : List ℕ) → length xs < n → (e : Error) × (read_full n xs ≡ err e)
unfolding read_full
read_full-short zero xs h = absurd (omega arith)
read_full-short (suc n) [] h = (eof, refl)
read_full-short (suc n) (x ∷ xs) h = (unexpected_eof, rw (lt→ltb (length xs) n (omega arith)) refl)

-- The decodeState: a bytes.Reader over `buf`, read up to `pos`.
pub record DecodeState : Type 0 where
  pub buf : List ℕ
  pub pos : ℕ

abbrev pub unread : DecodeState → List ℕ
unread s = drop s.pos s.buf

abbrev pub advance : DecodeState → ℕ → DecodeState
advance s n = record s { pos = s.pos + n }

pub advance_zero : (s : DecodeState) → advance s 0 ≡ s
advance_zero s = λ i. record { buf = s.buf; pos = add-zero s.pos i }

pub advance_add : (s : DecodeState) (m n : ℕ) → advance (advance s m) n ≡ advance s (m + n)
advance_add s m n = λ i. record { buf = s.buf; pos = add_assoc s.pos m n i }

unfoldable pub read_byte : DecodeState → Result (ℕ × DecodeState)
read_byte s = elim (unread s) [ [] ↦ err eof | b ∷ _ ↦ ok (b, advance s 1) ]

-- binary.Read of a value of `n` bytes.
unfoldable pub read_binary : ℕ → DecodeState → Result (List ℕ × DecodeState)
read_binary n s = do (bytes, _) ← read_full n (unread s); ok (bytes, advance s n)

pub unread-advance :
    (s : DecodeState) (xs ys : List ℕ) → unread s ≡ xs ++ ys → unread (advance s (length xs)) ≡ ys
unread-advance s xs ys h = rw (drop-drop s.pos (length xs) s.buf, h) (drop-length xs ys)

pub read_byte_lem :
    (s : DecodeState) (b : ℕ) (ys : List ℕ) → unread s ≡ b ∷ ys → read_byte s ≡ ok (b, advance s 1)
unfolding read_byte
read_byte_lem s b ys h = rw (h, read_byte)

pub read_binary_lem :
    (n : ℕ) (s : DecodeState) (xs ys : List ℕ)
    → length xs ≡ n
    → unread s ≡ xs ++ ys
    → read_binary n s ≡ ok (xs, advance s n)
unfolding read_binary
read_binary_lem n s xs ys e h = rw (h, read_full-append n xs ys e)

-- The encodeState: the stack of buffers, the one that is written to on top. `buf` is the top.
pub record EncodeState : Type 0 where
  pub buf_stack : List (List ℕ)

-- A write to the buffer on top; s.buf is nil, and the call panics, while there is none.
unfoldable pub write : List ℕ → EncodeState → Result EncodeState
write bytes s = elim s.buf_stack [
  | [] ↦ panic
  | top ∷ below ↦ ok (record { buf_stack = (top ++ bytes) ∷ below })
]

unfoldable pub push_buffer : EncodeState → EncodeState
push_buffer s = record { buf_stack = [] ∷ s.buf_stack }

-- The new top is read at once, so the last buffer cannot be popped.
unfoldable pub pop_buffer : EncodeState → Result (List ℕ × EncodeState)
pop_buffer s = elim s.buf_stack [
  | [] ↦ panic
  | top ∷ [] ↦ panic
  | top ∷ next ∷ below ↦ ok (top, record { buf_stack = next ∷ below })
]

abbrev pub with_top : List ℕ → List (List ℕ) → EncodeState
with_top top below = record { buf_stack = top ∷ below }

pub write_lem :
    (bytes top : List ℕ) (below : List (List ℕ))
    → write bytes (with_top top below) ≡ ok (with_top (top ++ bytes) below)
unfolding write
write_lem bytes top below = refl
