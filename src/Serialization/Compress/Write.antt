-- ===== src/Serialization/Compress/Write.antt =====
-- What the loop of writeCompressed writes, as the bytes that a reader takes (serialization/bytecompress.go).
use native.Mathlib.Nat.{pow-suc}
use phabrik.Base.{
  ℕ, zero, suc, ◌+◌, ◌-◌, ◌*◌, ◌/◌, ◌%◌, ◌^◌, ◌≤◌, ◌<◌, ◌≡◌, refl, ◌∙◌, ◌⊎◌, inl, inr, Bool, true,
  false, ◌&&◌, List, [], ◌∷◌, Result, ok, ◌==◌, if◌then◌else◌, arith, length, Bool-cases, ==_iff,
}
use phabrik.Serialization.Compress.{shift_in, shift_out, write_loop}

-- Read from `value` on, the bytes give `v`; all but the last have the top bit.
unfoldable pub Reads : ℕ → List ℕ → ℕ → Type 0
Reads value [] v = value ≡ v
Reads value (b ∷ []) v = (b < 128) × (shift_in value b ≡ v)
Reads value (b ∷ c ∷ bs) v = (128 ≤ b) × (b < 256) × Reads (shift_in value (b - 128)) (c ∷ bs) v

-- A group put back onto what the shift left.
shift_in-shift_out :
    (signed : Bool) (temp : ℕ)
    → temp < 2 ^ 64
    → shift_in (shift_out signed temp) (temp % 128) ≡ temp
unfolding shift_in shift_out
shift_in-shift_out signed temp h = ground arith

shift_out-lt : (signed : Bool) (temp : ℕ) → temp < 2 ^ 64 → shift_out signed temp < 2 ^ 64
unfolding shift_out
shift_out-lt signed temp h = ground arith

-- The byte that a round writes in front of `done`: the first one written has no top bit.
abbrev byte_for : ℕ → List ℕ → ℕ
byte_for temp [] = temp % 128
byte_for temp (_ ∷ _) = temp % 128 + 128

Reads-cons :
    (signed : Bool) (temp v : ℕ) (done : List ℕ)
    → temp < 2 ^ 64
    → Reads temp done v
    → Reads (shift_out signed temp) (byte_for temp done ∷ done) v
unfolding Reads
Reads-cons signed temp v [] h r = ground (arith, shift_in-shift_out signed temp h)
Reads-cons signed temp v (d ∷ ds) h r =
    let e : temp % 128 + 128 - 128 ≡ temp % 128 = omega arith in
    (omega arith, omega arith, rw (e, shift_in-shift_out signed temp h) r)

-- `temp` fits in `suc n` groups with the sign bit of `target` on top.
abbrev pub Fits : Bool → ℕ → ℕ → ℕ → Type 0
Fits signed target temp n =
    ((target ≡ 0) × (temp < 64 * 128 ^ n) × (signed ≡ true → temp < 2 ^ 63))
    ⊎ ((target ≡ 2 ^ 64 - 1) × (signed ≡ true) × (2 ^ 63 ≤ temp) × (2 ^ 64 ≤ temp + 64 * 128 ^ n))

Fits-stop :
    (signed : Bool) (target temp : ℕ)
    → temp < 2 ^ 64
    → Fits signed target temp 0
    → (shift_out signed temp ≡ target) × (temp % 128 / 64 % 2 ≡ target / 64 % 2)
unfolding shift_out
Fits-stop signed target temp h f = ground arith

shift_out_low :
    (signed : Bool) (temp : ℕ)
    → (signed ≡ true → temp < 2 ^ 63)
    → shift_out signed temp ≡ temp / 128
unfolding shift_out
shift_out_low false temp h = refl
shift_out_low true temp h = ground (arith, h refl)

shift_out_high : (temp : ℕ) → 2 ^ 63 ≤ temp → shift_out true temp ≡ temp / 128 + (2 ^ 64 - 2 ^ 57)
unfolding shift_out
shift_out_high temp h = ground arith

Fits-step :
    (signed : Bool) (target temp n : ℕ)
    → temp < 2 ^ 64
    → Fits signed target temp (suc n)
    → Fits signed target (shift_out signed temp) n
Fits-step signed target temp n h (inl (e, fits, low)) =
    rw (shift_out_low signed temp low)
      (inl (e, omega (arith, pow-suc 128 n), λ s. omega (arith, low s)))
Fits-step signed target temp n h (inr (e, s, high, fits)) =
    rw (s, shift_out_high temp high) (inr (e, refl, omega arith, omega (arith, pow-suc 128 n)))

unfoldable pub is_nil : List ℕ → Bool
is_nil [] = true
is_nil (x ∷ xs) = false

-- What is written starts with the sign and reads back as the value.
abbrev pub Written : ℕ → ℕ → ℕ → List ℕ → Result (List ℕ) → Type 0
Written slots target v done r =
    (b : ℕ) × (bs : List ℕ) × (r ≡ ok (b ∷ bs))
    × (b / 64 % 2 ≡ target / 64 % 2)
    × Reads target (b ∷ bs) v
    × (length (b ∷ bs) ≤ slots + length done)

byte_for_first :
    (temp : ℕ) (done : List ℕ)
    → (if is_nil done then temp % 128 else temp % 128 + 128) ≡ byte_for temp done
unfolding is_nil
byte_for_first temp [] = refl
byte_for_first temp (d ∷ ds) = refl

byte_for_sign : (temp : ℕ) (done : List ℕ) → byte_for temp done / 64 % 2 ≡ temp % 128 / 64 % 2
byte_for_sign temp [] = refl
byte_for_sign temp (d ∷ ds) = omega arith

-- One round, by its test.
write_loop_round :
    (signed : Bool) (slots target temp : ℕ) (done : List ℕ)
    → write_loop signed (suc slots) target temp (is_nil done) done ≡ (
        if (shift_out signed temp == target) && (byte_for temp done / 64 % 2 == target / 64 % 2)
        then ok (byte_for temp done ∷ done)
        else write_loop signed slots target
            (shift_out signed temp)
            false
            (byte_for temp done ∷ done))
unfolding write_loop is_nil
write_loop_round signed slots target temp [] = refl
write_loop_round signed slots target temp (d ∷ ds) = refl

stop_Written :
    (signed : Bool) (slots target temp v : ℕ) (done : List ℕ)
    → temp < 2 ^ 64
    → Reads temp done v
    → shift_out signed temp ≡ target
    → byte_for temp done / 64 % 2 ≡ target / 64 % 2
    → Written (suc slots) target v done (ok (byte_for temp done ∷ done))
stop_Written signed slots target temp v done h r e sign = (
  byte_for temp done,
  done,
  refl,
  sign,
  rw (← e) (Reads-cons signed temp v done h r),
  omega arith,
)

pub write_loop-Written :
    (signed : Bool) (n target temp v : ℕ) (done : List ℕ)
    → temp < 2 ^ 64
    → Reads temp done v
    → Fits signed target temp n
    → Written (suc n) target v done (write_loop signed (suc n) target temp (is_nil done) done)
unfolding is_nil
write_loop-Written signed zero target temp v done h r f =
    let (e, sign) = Fits-stop signed target temp h f in
    rw
      (
        write_loop_round,
        e,
        (==_iff target target).1 refl,
        byte_for_sign,
        sign,
        (==_iff (target / 64 % 2) _).1 refl,
      )
      (stop_Written signed 0 target temp v done h r e (byte_for_sign temp done ∙ sign))
write_loop-Written signed (suc n) target temp v done h r f =
    rw write_loop_round (elim (Bool-cases (test (shift_out signed temp) (byte_for temp done))) [
      | inl e ↦
          let (a, b) = test_parts _ _ e in
          rw e (stop_Written signed (suc n) target temp v done h r a b)
      | inr e ↦ rw e (
          longer (
            write_loop-Written signed n target (shift_out signed temp) v (byte_for temp done ∷ done)
              (shift_out-lt signed temp h) (Reads-cons signed temp v done h r)
              (Fits-step signed target temp n h f)))
    ])
  where
    test : ℕ → ℕ → Bool
    test t b = (t == target) && (b / 64 % 2 == target / 64 % 2)

    test_parts : (t b : ℕ) → test t b ≡ true → (t ≡ target) × (b / 64 % 2 ≡ target / 64 % 2)
    test_parts t b e = ground arith

    longer :
        {r : Result (List ℕ)}
        → Written (suc n) target v (byte_for temp done ∷ done) r
        → Written (suc (suc n)) target v done r
    longer (b, bs, e, s, rd, l) = (b, bs, e, s, rd, omega arith)
