-- ===== src/Lease/Frame/RoundTrip.antt =====
-- What nextLtFrame reads (lease/frame.go).
use phabrik.Base.{
  ℕ, zero, suc, ◌+◌, ◌-◌, ◌%◌, ◌^◌, ◌<◌, ◌≡◌, refl, sym, ◌∙◌, List, [], ◌∷◌, ◌++◌, some, Result, ok,
  err, panic, le_bytes, le_value, length, arith, append_assoc,
}
use phabrik.Serialization.State.{read_full, read_full-append}
use phabrik.Transport.Headers.Parse.{length-drop-le}
use phabrik.Lease.Frame.{
  LtFrameHeader, Round, done, again, header_bytes, header_of_bytes, on_header, lt_round,
  next_lt_frame_loop, next_lt_frame, write_connect_frame, write_data_with_frame, connect_header,
  data_header,
}

read_header_rest : (n : ℕ) (r a b : List ℕ) → read_full (suc n) r ≡ ok (a, b) → length b < length r
unfolding read_full
read_header_rest n [] a b e = cc
read_header_rest n (x ∷ xs) a b e = ground (arith, length-drop-le n xs)

on_header_shorter :
    (r r' : List ℕ) (x : Result (List ℕ × List ℕ))
    → read_full 12 r ≡ x
    → on_header x ≡ again r'
    → length r' < length r
unfolding on_header
on_header_shorter r r' (ok (a, b)) f g =
    let same : b ≡ r' = ground (arith, g) in rw (← same) (read_header_rest 11 r a b f)
on_header_shorter r r' (err c) f g = cc
on_header_shorter r r' panic f g = cc

again_shorter : (r r' : List ℕ) → lt_round r ≡ again r' → length r' < length r
unfolding lt_round
again_shorter r r' e = on_header_shorter r r' (read_full 12 r) refl e

loop_done :
    (fuel : ℕ) (r : List ℕ) (x : Result (List ℕ × List ℕ))
    → lt_round r ≡ done x
    → next_lt_frame_loop (suc fuel) r ≡ some x
unfolding next_lt_frame_loop
loop_done fuel r x e = rw (next_lt_frame_loop, e)

loop_again :
    (fuel : ℕ) (r r' : List ℕ)
    → lt_round r ≡ again r'
    → next_lt_frame_loop (suc fuel) r ≡ next_lt_frame_loop fuel r'
unfolding next_lt_frame_loop
loop_again fuel r r' e = rw (next_lt_frame_loop, e)

Agreed : ℕ → ℕ → List ℕ → Type 0
Agreed m n r =
    (x : Result (List ℕ × List ℕ)) × (next_lt_frame_loop m r ≡ some x)
    × (next_lt_frame_loop n r ≡ some x)

round_fuel :
    (m n : ℕ) (r : List ℕ)
    → ((r' : List ℕ) → length r' < length r → Agreed m n r')
    → (x : Round) → lt_round r ≡ x
    → Agreed (suc m) (suc n) r
unfolding Agreed
round_fuel m n r rec (done y) e = (y, loop_done m r y e, loop_done n r y e)
round_fuel m n r rec (again r') e =
    let (y, a, b) = rec r' (again_shorter r r' e) in
    (y, loop_again m r r' e ∙ a, loop_again n r r' e ∙ b)

-- Any fuel above the length gives the same result, and gives one.
loop_fuel : (m n : ℕ) (r : List ℕ) → length r < m → length r < n → Agreed m n r
loop_fuel zero n r hm hn = absurd (omega arith)
loop_fuel (suc m) zero r hm hn = absurd (omega arith)
loop_fuel (suc m) (suc n) r hm hn =
    round_fuel m n r (λ r' l. loop_fuel m n r' (omega arith) (omega arith)) (lt_round r) refl

-- nextLtFrame returns on every input.
pub next_lt_frame_total : (r : List ℕ) → (x : Result (List ℕ × List ℕ)) × (next_lt_frame r ≡ some x)
unfolding next_lt_frame Agreed
next_lt_frame_total r =
    let (x, e, _) = loop_fuel (suc (length r)) (suc (length r)) r (omega arith) (omega arith) in
    (x, e)

header_of_bytes-header_bytes :
    (h : LtFrameHeader)
    → h.frame_type < 256
    → h.reserved1 < 256
    → h.reserved2 < 2 ^ 16
    → h.frame_size < 2 ^ 32
    → h.reserved3 < 2 ^ 32
    → header_of_bytes (header_bytes h) ≡ h
unfolding header_of_bytes header_bytes le_bytes le_value
header_of_bytes-header_bytes h a b c d e = ground arith

length-header_bytes : (h : LtFrameHeader) → length (header_bytes h) ≡ 12
unfolding header_bytes le_bytes
length-header_bytes h = refl

connect_again : (r : List ℕ) → lt_round (write_connect_frame ++ r) ≡ again r
unfolding lt_round write_connect_frame on_header
connect_again r =
    rw (read_full-append 12 (header_bytes connect_header) r (length-header_bytes connect_header)) (
      rw
        (header_of_bytes-header_bytes connect_header (omega arith) (omega arith) (omega arith)
          (omega arith) (omega arith))
        refl)

data_done :
    (message rest : List ℕ)
    → length message + 12 < 2 ^ 32
    → lt_round (write_data_with_frame message ++ rest) ≡ done (ok (message, rest))
unfolding lt_round write_data_with_frame on_header
data_done message rest l =
    let h : LtFrameHeader = data_header message in
    let size : (h.frame_size + 2 ^ 32 - 12) % 2 ^ 32 ≡ length message = omega arith in
    rw
      (
        append_assoc (header_bytes h) message rest,
        read_full-append 12 (header_bytes h) (message ++ rest) (length-header_bytes h),
      )
      (rw
        (
          header_of_bytes-header_bytes h (omega arith) (omega arith) (omega arith) (omega arith)
              (omega arith),
          size,
          read_full-append (length message) message rest refl,
        )
        refl)

-- Connect frames are skipped: behind one, nextLtFrame reads what it reads without it.
pub next_lt_frame-connect :
    (r : List ℕ) → next_lt_frame (write_connect_frame ++ r) ≡ next_lt_frame r
unfolding next_lt_frame Agreed
next_lt_frame-connect r =
    let all = write_connect_frame ++ r in
    let (x, e, f) =
      loop_fuel (length all) (suc (length r)) r (again_shorter all r (connect_again r))
        (omega arith) in
    loop_again (length all) all r (connect_again r) ∙ (e ∙ sym f)

-- nextLtFrame reads back a message below 2 ^ 32 - 12 bytes that writeDataWithFrame wrote, and leaves
-- what follows.
pub next_lt_frame-write_data :
    (message rest : List ℕ)
    → length message + 12 < 2 ^ 32
    → next_lt_frame (write_data_with_frame message ++ rest) ≡ some (ok (message, rest))
unfolding next_lt_frame
next_lt_frame-write_data message rest l = loop_done _ _ _ (data_done message rest l)
