-- ===== src/Base/Results.antt =====
-- The outcome of a Go call: a value, an error value, or a panic.
use Prim.Native.String.{String}
use mathlib.Core.Path.{◌≡◌, refl}
use mathlib.Core.Bool.{Bool, true, false}

-- `errorf` is an error that the code makes with fmt.Errorf; its arguments are left out.
pub data Error : Type 0 where
  eof unexpected_eof : Error
  errorf : String → Error

pub data Result {ℓ} (Value : Type ℓ) : Type ℓ where
  panic : Result Value
  err : Error → Result Value
  ok : Value → Result Value

-- A call whose error or panic ends the caller.
infixl 5 ◌>>=◌
abbrev pub ◌>>=◌ {ℓ ℓ'} :
    {Before : Type ℓ} {After : Type ℓ'} → Result Before → (Before → Result After) → Result After
panic >>= rest = panic
err why >>= rest = err why
ok value >>= rest = rest value

-- `if !passed { return err }`
abbrev pub guard : Bool → Error → Result (Unit {0})
guard false why = err why
guard true why = ok tt

infixl 5 ◌>>◌
abbrev pub ◌>>◌ {ℓ'} : {After : Type ℓ'} → Result (Unit {0}) → Result After → Result After
check >> rest = check >>= λ _. rest

-- What a caller that came through knows of its call.
pub >>=-eq-ok {ℓ ℓ'} :
    {Before : Type ℓ} {After : Type ℓ'} (call : Result Before) (rest : Before → Result After)
    {final : After}
    → (call >>= rest) ≡ ok final
    → (value : Before) × (call ≡ ok value) × (rest value ≡ ok final)
>>=-eq-ok panic rest through = cc
>>=-eq-ok (err why) rest through = cc
>>=-eq-ok (ok value) rest through = (value, refl, through)
