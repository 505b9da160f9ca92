-- ===== src/Transport/Headers/Parse.antt =====
-- That parsing ends, and that one header that was written is read back (transport/messageheaders.go).
use phabrik.Base.{
  ℕ, zero, suc, ◌%◌, ◌^◌, ◌≤◌, ◌<◌, ◌≡◌, refl, ◌∙◌, inl, inr, true, false, List, [], ◌∷◌, ◌++◌,
  Option, some, Result, ok, err, panic, eof, unexpected_eof, errorf, ◌==◌, le_bytes, le_value, drop,
  length, arith, append_assoc, Bool-cases, length-le_bytes, le_value-le_bytes, >>=-eq-ok,
}
use phabrik.Serialization.State.{read_full, read_full-append}
use phabrik.Serialization.Marshal.{Argument, marshal}
use phabrik.Transport.Headers.{MessageHeaders, Activators, header_ids}
use phabrik.Transport.Headers.Write.{write_message_header}
use phabrik.Transport.Headers.Read.{
  next_message_header, set_header, parse_loop, parse_fabric_message_headers, empty_headers,
}

-- A successful read takes its bytes off the front.
pub length-drop-le : (n : ℕ) (xs : List ℕ) → length (drop n xs) ≤ length xs
length-drop-le zero xs = omega arith
length-drop-le (suc n) [] = omega arith
length-drop-le (suc n) (x ∷ xs) = omega (arith, length-drop-le n xs)

read_full_rest : (n : ℕ) (r a b : List ℕ) → read_full n r ≡ ok (a, b) → length b ≤ length r
unfolding read_full
read_full_rest zero r a b e = ground arith
read_full_rest (suc n) [] a b e = cc
read_full_rest (suc n) (x ∷ xs) a b e = ground (arith, length-drop-le n xs)

read_two_rest : (r a b : List ℕ) → read_full 2 r ≡ ok (a, b) → suc (length b) ≤ length r
unfolding read_full
read_two_rest [] a b e = cc
read_two_rest (x ∷ xs) a b e = ground (arith, length-drop-le 1 xs)

next_message_header_rest :
    (r : List ℕ) (id : ℕ) (body rest : List ℕ)
    → next_message_header r ≡ ok (id, body, rest)
    → length rest < length r
unfolding next_message_header
next_message_header_rest r id body rest e =
    let ((a, r1), e1, f1) = >>=-eq-ok (read_full 2 r) _ e in
    let ((b, r2), e2, f2) = >>=-eq-ok (read_full 2 r1) _ f1 in
    let ((c, r3), e3, f3) = >>=-eq-ok (read_full (le_value b) r2) _ f2 in
    let same : length r3 ≡ length rest = ground (arith, f3) in
    omega (
      arith,
      same,
      read_two_rest r a r1 e1,
      read_two_rest r1 b r2 e2,
      read_full_rest (le_value b) r2 c r3 e3,
    )

-- One round by what it reads.
pub parse_step :
    (acts : Activators) (fuel : ℕ) (h : MessageHeaders) (r : List ℕ) (id : ℕ) (body rest : List ℕ)
    → next_message_header r ≡ ok (id, body, rest)
    → (id == header_ids.invalid) ≡ false
    → parse_loop acts (suc fuel) h r ≡ (elim (set_header acts id body h) [
      | ok h' ↦ parse_loop acts fuel h' rest
      | err e ↦ some (err e)
      | panic ↦ some panic
    ])
unfolding parse_loop
parse_step acts fuel h r id body rest e n = rw (e, parse_loop, n)

Ends : Option (Result MessageHeaders) → Type 0
Ends r = (x : Result MessageHeaders) × (r ≡ some x)

parse_invalid :
    (acts : Activators) (fuel : ℕ) (h : MessageHeaders) (r : List ℕ) (id : ℕ) (body rest : List ℕ)
    → next_message_header r ≡ ok (id, body, rest)
    → (id == header_ids.invalid) ≡ true
    → parse_loop acts (suc fuel) h r ≡ parse_loop acts fuel h rest
unfolding parse_loop
parse_invalid acts fuel h r id body rest e n = rw (e, parse_loop, n)

round_total :
    (acts : Activators) (fuel : ℕ) (h : MessageHeaders) (r : List ℕ)
    → ((h' : MessageHeaders) (r' : List ℕ)
        → length r' < length r
        → Ends (parse_loop acts fuel h' r'))
    → Ends (parse_loop acts (suc fuel) h r)
unfolding Ends
round_total acts fuel h r rec = go (next_message_header r) refl
  where
    set :
        (id : ℕ) (body rest : List ℕ)
        → next_message_header r ≡ ok (id, body, rest)
        → (id == header_ids.invalid) ≡ false
        → (x : Result MessageHeaders) → set_header acts id body h ≡ x
        → Ends (parse_loop acts (suc fuel) h r)
    set id body rest e n (ok h') f =
        rw (parse_step acts fuel h r id body rest e n, f)
          (rec h' rest (next_message_header_rest r id body rest e))
    set id body rest e n (err c) f = rw (parse_step acts fuel h r id body rest e n, f) (err c, refl)
    set id body rest e n panic f = rw (parse_step acts fuel h r id body rest e n, f) (panic, refl)

    go :
        (n : Result (ℕ × List ℕ × List ℕ))
        → next_message_header r ≡ n
        → Ends (parse_loop acts (suc fuel) h r)
    go (ok (id, body, rest)) e = elim (Bool-cases (id == header_ids.invalid)) [
      | inl n ↦
          rw (parse_invalid acts fuel h r id body rest e n)
            (rec h rest (next_message_header_rest r id body rest e))
      | inr n ↦ set id body rest e n (set_header acts id body h) refl
    ]
    go (err eof) e = unfold parse_loop in (ok h, rw (e, parse_loop))
    go (err unexpected_eof) e = unfold parse_loop in (err unexpected_eof, rw (e, parse_loop))
    go (err (errorf m)) e = unfold parse_loop in (err (errorf m), rw (e, parse_loop))
    go panic e = unfold parse_loop in (panic, rw (e, parse_loop))

parse_loop_total :
    (acts : Activators) (fuel : ℕ) (h : MessageHeaders) (r : List ℕ)
    → length r < fuel
    → Ends (parse_loop acts fuel h r)
parse_loop_total acts zero h r l = absurd (omega arith)
parse_loop_total acts (suc fuel) h r l =
    round_total acts fuel h r (λ h' r' k. parse_loop_total acts fuel h' r' (omega arith))

-- Parsing ends on every input, with headers, an error or a panic.
pub parse_total :
    (acts : Activators) (r : List ℕ)
    → (x : Result MessageHeaders) × (parse_fabric_message_headers acts r ≡ some x)
unfolding parse_fabric_message_headers Ends
parse_total acts r = parse_loop_total acts (suc (length r)) empty_headers r (omega arith)

-- nextMessageHeader reads back a header that writeMessageHeader wrote for a uint16 and a body below
-- 2 ^ 16 bytes, and leaves what follows.
pub next_message_header-write_message_header :
    (id : ℕ) (arg : Argument) (b w rest : List ℕ)
    → id < 2 ^ 16
    → marshal arg ≡ ok b
    → length b < 2 ^ 16
    → write_message_header id arg ≡ ok w
    → next_message_header (w ++ rest) ≡ ok (id, b, rest)
unfolding write_message_header
next_message_header-write_message_header id arg b w rest hi m l e =
    rw (← shape, append_assoc (le_bytes 2 id), append_assoc (le_bytes 2 (length b % 2 ^ 16)) b rest)
      (unfold next_message_header in
        simp (
          read_full-append 2 (le_bytes 2 id) _ (length-le_bytes 2 id),
          read_full-append 2 (le_bytes 2 (length b % 2 ^ 16)) _
              (length-le_bytes 2 (length b % 2 ^ 16)),
          size,
          le_value-le_bytes 2 id hi,
          read_full-append (length b) b rest refl,
        ))
  where
    size : le_value (le_bytes 2 (length b % 2 ^ 16)) ≡ length b
    size = le_value-le_bytes 2 (length b % 2 ^ 16) (omega arith) ∙ omega arith

    shape : le_bytes 2 id ++ (le_bytes 2 (length b % 2 ^ 16) ++ b) ≡ w
    shape = cc (rw (m, write_message_header) at e)
