-- ===== src/Serialization/Compress/RoundTrip.antt =====
-- What writeCompressed writes, readCompressed reads back (serialization/bytecompress.go).
use phabrik.Base.{
  ℕ, zero, suc, ◌+◌, ◌-◌, ◌*◌, ◌/◌, ◌%◌, ◌^◌, ◌≤◌, ◌<◌, ◌≡◌, refl, ap, ◌∙◌, ◌⊎◌, inl, inr, Bool,
  true, false, ◌&&◌, List, [], ◌∷◌, ◌++◌, ok, leb, ◌==◌, if◌then◌else◌, arith, length, lt→ltb,
  ge→ltb,
}
use phabrik.Serialization.State.{
  DecodeState, unread, advance, advance_zero, advance_add, read_byte_lem, unread-advance,
}
use phabrik.Serialization.Compress.{max_size, shift_in, read_loop, read_compressed, compressed}
use phabrik.Serialization.Compress.Write.{Reads, Fits, is_nil, Written, write_loop-Written}

-- The integers of `size` bytes, sign-extended to 64 bits.
abbrev pub IsSize : ℕ → Type 0
IsSize size = (size ≡ 2) ⊎ ((size ≡ 4) ⊎ (size ≡ 8))

abbrev pub InRange : Bool → ℕ → ℕ → Type 0
InRange false size v = v < 256 ^ size
InRange true size v =
    (v < 128 * 256 ^ (size - 1)) ⊎ ((v < 2 ^ 64) × (2 ^ 64 ≤ v + 128 * 256 ^ (size - 1)))

abbrev target_of : Bool → ℕ → ℕ
target_of signed v = if signed && leb (2 ^ 63) v then 2 ^ 64 - 1 else 0

Fits-unsigned : (v n : ℕ) → v < 64 * 128 ^ n → Fits false (target_of false v) v n
Fits-unsigned v n h = inl (refl, h, λ s. cc)

Fits-signed :
    (v n : ℕ)
    → n ≤ 9
    → (v < 64 * 128 ^ n × v < 2 ^ 63) ⊎ ((v < 2 ^ 64) × (2 ^ 64 ≤ v + 64 * 128 ^ n) × (2 ^ 63 ≤ v))
    → Fits true (target_of true v) v n
Fits-signed v n hn (inl (h, l)) = rw (low v l) (inl (refl, h, λ _. l))
  where
    low : (v : ℕ) → v < 2 ^ 63 → target_of true v ≡ 0
    low v h = ground arith
Fits-signed v n hn (inr (l, h, g)) = rw (high v g) (inr (refl, refl, g, h))
  where
    high : (v : ℕ) → 2 ^ 63 ≤ v → target_of true v ≡ 2 ^ 64 - 1
    high v h = ground arith

-- The groups of a size are enough for its integers.
InRange-Fits :
    (signed : Bool) (size v : ℕ)
    → IsSize size
    → InRange signed size v
    → (n : ℕ) × (max_size size ≡ suc n) × Fits signed (target_of signed v) v n × (v < 2 ^ 64)
unfolding max_size
InRange-Fits false size v (inl e) r =
    let r' : v < 256 ^ 2 = rw e at r in (2, rw e, Fits-unsigned v 2 (omega arith), omega arith)
InRange-Fits false size v (inr (inl e)) r =
    let r' : v < 256 ^ 4 = rw e at r in (4, rw e, Fits-unsigned v 4 (omega arith), omega arith)
InRange-Fits false size v (inr (inr e)) r =
    let r' : v < 256 ^ 8 = rw e at r in (9, rw e, Fits-unsigned v 9 (omega arith), omega arith)
InRange-Fits true size v (inl e) r =
    let r' : InRange true 2 v = rw e at r in
    (2, rw e, Fits-signed v 2 (omega arith) (omega arith), omega arith)
InRange-Fits true size v (inr (inl e)) r =
    let r' : InRange true 4 v = rw e at r in
    (4, rw e, Fits-signed v 4 (omega arith) (omega arith), omega arith)
InRange-Fits true size v (inr (inr e)) r =
    let r' : InRange true 8 v = rw e at r in
    (9, rw e, Fits-signed v 9 (omega arith) (omega arith), omega arith)

compressed-Written :
    (signed : Bool) (size v : ℕ)
    → IsSize size
    → InRange signed size v
    → 0 < v
    → Written (max_size size) (target_of signed v) v [] (compressed signed size v)
unfolding compressed is_nil
compressed-Written signed size v hs hr pos =
    let (n, e, fits, h) = InRange-Fits signed size v hs hr in
    rw (e, not_zero v pos)
      (write_loop-Written signed n (target_of signed v) v v [] h (unfold Reads in refl) fits)
  where
    not_zero : (v : ℕ) → 0 < v → (v == 0) ≡ false
    not_zero v h = ground arith

read_loop_more :
    (left b value c : ℕ) (ys : List ℕ) (s : DecodeState)
    → 128 ≤ b
    → unread s ≡ c ∷ ys
    → read_loop (suc (suc left)) b value s
      ≡ read_loop (suc left) c (shift_in value (b % 128)) (advance s 1)
unfolding read_loop
read_loop_more left b value c ys s h e = rw (ge→ltb b 128 h, read_byte_lem s c ys e)

read_loop_last :
    (left b value : ℕ) (s : DecodeState)
    → b < 128
    → read_loop (suc left) b value s ≡ ok (shift_in value (b % 128), s)
unfolding read_loop
read_loop_last left b value s h = rw (lt→ltb b 128 h)

read_loop-Reads :
    (left b value v : ℕ) (bs ys : List ℕ) (s : DecodeState)
    → Reads value (b ∷ bs) v
    → unread s ≡ bs ++ ys
    → length bs ≤ left
    → read_loop (suc left) b value s ≡ ok (v, advance s (length bs))
unfolding Reads
read_loop-Reads left b value v [] ys s r h l =
    let e : b % 128 ≡ b = omega arith in
    rw (read_loop_last left b value s r.0, e, r.1, advance_zero s)
read_loop-Reads zero b value v (c ∷ bs) ys s r h l = absurd (omega arith)
read_loop-Reads (suc left) b value v (c ∷ bs) ys s r h l =
    let e : b % 128 ≡ b - 128 = omega arith in
    let k : 1 + length bs ≡ suc (length bs) = omega arith in
    rw (read_loop_more left b value c (bs ++ ys) s r.0 h, e)
      (read_loop-Reads left c (shift_in value (b - 128)) v bs ys (advance s 1) r.2
          (unread-advance s (c ∷ []) (bs ++ ys) h) (omega arith)
        ∙ ap (λ t. ok (v, t)) (advance_add s 1 (length bs) ∙ ap (advance s) k))

-- The sign bit of the first byte brings back the value that the loop starts from.
first_value :
    (signed : Bool) (v b : ℕ)
    → b / 64 % 2 ≡ target_of signed v / 64 % 2
    → (if b / 64 % 2 == 1 then 2 ^ 64 - 1 else 0) ≡ target_of signed v
first_value signed v b h = rw h (go (signed && leb (2 ^ 63) v))
  where
    go :
        (c : Bool)
        → (let t : ℕ = if c then 2 ^ 64 - 1 else 0 in
            (if t / 64 % 2 == 1 then 2 ^ 64 - 1 else 0) ≡ t)
    go true = refl
    go false = refl

read_compressed-Reads :
    (signed : Bool) (size v b n : ℕ) (bs rest : List ℕ) (s : DecodeState)
    → max_size size ≡ suc n
    → unread s ≡ b ∷ (bs ++ rest)
    → b / 64 % 2 ≡ target_of signed v / 64 % 2
    → Reads (target_of signed v) (b ∷ bs) v
    → length bs ≤ n
    → read_compressed size s ≡ ok (v, advance s (length (b ∷ bs)))
unfolding read_compressed
read_compressed-Reads signed size v b n bs rest s e u sign r l =
    let k : 1 + length bs ≡ suc (length bs) = omega arith in
    rw (read_byte_lem s b (bs ++ rest) u, first_value signed v b sign, e)
      (read_loop-Reads n b (target_of signed v) v bs rest (advance s 1) r
          (unread-advance s (b ∷ []) (bs ++ rest) u) l
        ∙ ap (λ t. ok (v, t)) (advance_add s 1 (length bs) ∙ ap (advance s) k))

-- Every integer of the size but zero, which has no bytes, is written in 1 to max_size bytes.
pub compressed_total :
    (signed : Bool) (size v : ℕ)
    → IsSize size
    → InRange signed size v
    → 0 < v
    → (bytes : List ℕ) × (compressed signed size v ≡ ok bytes)
      × (1 ≤ length bytes)
      × (length bytes ≤ max_size size)
compressed_total signed size v hs hr pos =
    let (b, bs, e, _, _, l) = compressed-Written signed size v hs hr pos in
    (b ∷ bs, e, omega arith, omega arith)

-- The bytes that are written for an integer of the size but zero, with anything after them, are
-- read back as that integer, and the reader stands behind them.
pub read_compressed-compressed :
    (signed : Bool) (size v : ℕ) (bytes rest : List ℕ) (s : DecodeState)
    → IsSize size
    → InRange signed size v
    → 0 < v
    → compressed signed size v ≡ ok bytes
    → unread s ≡ bytes ++ rest
    → read_compressed size s ≡ ok (v, advance s (length bytes))
read_compressed-compressed signed size v bytes rest s hs hr pos e u =
    let (b, bs, e', sign, r, l) = compressed-Written signed size v hs hr pos in
    let (n, m, _, _) = InRange-Fits signed size v hs hr in
    let same : bytes ≡ b ∷ bs = cc (e, e') in
    rw same (
      read_compressed-Reads signed size v b n bs rest s m (u ∙ ap (λ t. t ++ rest) same) sign r
        (omega arith))
