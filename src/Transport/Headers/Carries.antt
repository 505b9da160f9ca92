-- ===== src/Transport/Headers/Carries.antt =====
-- Headers that are written one after the other and parsed in the same order
-- (transport/messageheaders.go).
use phabrik.Base.{
  ℕ, zero, suc, ◌+◌, ◌%◌, ◌^◌, ◌<◌, ◌≡◌, refl, ◌∙◌, Bool, true, false, List, [], ◌∷◌, ◌++◌, some,
  ok, ◌==◌, le_bytes, length, length-append, arith,
}
use phabrik.Serialization.State.{read_full}
use phabrik.Serialization.GoType.{GoType, Val}
use phabrik.Serialization.Marshal.{Argument, pointer_to, marshal, is_struct}
use phabrik.Serialization.Unmarshal.{unmarshal}
use phabrik.Serialization.RoundTrip.Values.{IsWf, marshal_total, unmarshal-marshal}
use phabrik.Transport.Headers.{MessageHeaders, Activators, header_ids}
use phabrik.Transport.Headers.Write.{write_message_header, write_all, write_if}
use phabrik.Transport.Headers.Read.{next_message_header, set_header, parse_loop}
use phabrik.Transport.Headers.Parse.{parse_step, next_message_header-write_message_header}

-- The headers are written, and a parser that has `h` so far has `h'` behind them.
abbrev pub Carries : Activators → List (ℕ × Argument) → MessageHeaders → MessageHeaders → Type 0
Carries acts hs h h' =
    (w : List ℕ) × (write_all hs ≡ ok w)
    × (length w < 2 ^ 16 → (fuel : ℕ) → length w < fuel → parse_loop acts fuel h w ≡ some (ok h'))

pub nil-Carries : (acts : Activators) (h : MessageHeaders) → Carries acts [] h h
unfolding write_all parse_loop next_message_header read_full
nil-Carries acts h = ([], refl, λ _. go)
  where
    go : (fuel : ℕ) → 0 < fuel → parse_loop acts fuel h [] ≡ some (ok h)
    go zero l = absurd (omega arith)
    go (suc fuel) l = refl

-- The bytes of a header.
abbrev framed : ℕ → List ℕ → List ℕ
framed id b = le_bytes 2 id ++ (le_bytes 2 (length b % 2 ^ 16) ++ b)

write-framed :
    (id : ℕ) (arg : Argument) (b : List ℕ)
    → marshal arg ≡ ok b
    → write_message_header id arg ≡ ok (framed id b)
unfolding write_message_header
write-framed id arg b m = rw m

length-framed : (id : ℕ) (b : List ℕ) → length (framed id b) ≡ length b + 4
unfolding le_bytes
length-framed id b = omega arith

write_all-cons :
    (id : ℕ) (arg : Argument) (hs : List (ℕ × Argument)) (b w : List ℕ)
    → marshal arg ≡ ok b
    → write_all hs ≡ ok w
    → write_all ((id, arg) ∷ hs) ≡ ok (framed id b ++ w)
unfolding write_all
write_all-cons id arg hs b w m e = rw (write-framed id arg b m, e)

parse_loop-cons :
    (acts : Activators) (fuel id : ℕ) (arg : Argument) (h h' : MessageHeaders) (b w : List ℕ)
    → id < 2 ^ 16
    → (id == header_ids.invalid) ≡ false
    → marshal arg ≡ ok b
    → length b < 2 ^ 16
    → set_header acts id b h ≡ ok h'
    → parse_loop acts (suc fuel) h (framed id b ++ w) ≡ parse_loop acts fuel h' w
parse_loop-cons acts fuel id arg h h' b w fits known m l set =
    parse_step acts fuel h (framed id b ++ w) id b w
      (next_message_header-write_message_header id arg b (framed id b) w fits m l
        (write-framed id arg b m))
      known
    ∙ rw set

-- What a header does to the parser, whatever its bytes are, as long as they unmarshal to its value.
abbrev pub Sets : Activators → ℕ → (t : GoType) → Val t → MessageHeaders → MessageHeaders → Type 0
Sets acts id t v h h' =
    (b : List ℕ) → ((old : Val t) → unmarshal b t old ≡ ok v) → set_header acts id b h ≡ ok h'

module _ (acts : Activators) (id : ℕ) (t : GoType) (v : Val t) (h h' h'' : MessageHeaders) where
  after_header :
      (b w : List ℕ)
      → length (framed id b ++ w) ≡ length b + 4 + length w
      → length (framed id b ++ w) < 2 ^ 16
      → ((fuel : ℕ) → parse_loop acts (suc fuel) h (framed id b ++ w) ≡ parse_loop acts fuel h' w)
      → ((fuel : ℕ) → length w < fuel → parse_loop acts fuel h' w ≡ some (ok h''))
      → (fuel : ℕ) → length (framed id b ++ w) < fuel
      → parse_loop acts fuel h (framed id b ++ w) ≡ some (ok h'')
  after_header b w size short step rest zero l = absurd (omega arith)
  after_header b w size short step rest (suc fuel) l = step fuel ∙ rest fuel (omega (arith, size))

  -- One header in front of others.
  pub cons-Carries :
      (hs : List (ℕ × Argument))
      → id < 2 ^ 16
      → (id == header_ids.invalid) ≡ false
      → is_struct t ≡ true
      → IsWf t v
      → Sets acts id t v h h'
      → Carries acts hs h' h''
      → Carries acts ((id, pointer_to t v) ∷ hs) h h''
  cons-Carries hs fits known st wf sets (w, written, parsed) =
      let (b, m, _) = marshal_total t v st wf in
      let size : length (framed id b ++ w) ≡ length b + 4 + length w =
        omega (arith, length-append (framed id b) w, length-framed id b) in
      (
        framed id b ++ w,
        write_all-cons id (pointer_to t v) hs b w m written,
        λ short.
            (let step = λ (fuel : ℕ).
                parse_loop-cons acts fuel id (pointer_to t v) h h' b w fits known m
                  (omega (arith, size))
                  (sets b (λ old. unmarshal-marshal t v old b wf m (omega (arith, size)))) in
              after_header b w size short step (parsed (omega (arith, size)))),
      )

  -- A header that is written under a condition.
  pub if-Carries :
      (c : Bool) (hs : List (ℕ × Argument))
      → id < 2 ^ 16
      → (id == header_ids.invalid) ≡ false
      → is_struct t ≡ true
      → (c ≡ true → IsWf t v)
      → (c ≡ true → Sets acts id t v h h')
      → (c ≡ false → h ≡ h')
      → Carries acts hs h' h''
      → Carries acts (write_if c id (pointer_to t v) hs) h h''
  if-Carries true hs fits known st wf sets same rest =
      cons-Carries hs fits known st (wf refl) (sets refl) rest
  if-Carries false hs fits known st wf sets same rest = rw (same refl) rest
