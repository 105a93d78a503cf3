-- ===== src/Common/Errors.antt =====
-- Go's `error` values and the `(value, error)` results.
use Prim.Native.String.{String}
use mathlib.Core.Path.{◌≡◌, refl}
use mathlib.Core.Logic.{◌⊎◌, inl, inr}

-- `message` is `errors.New`; the others are the sentinels of io, net and os. `foreign` is an error
-- that code outside the repository returned.
pub data GoError : Type 0 where
  eof unexpected_eof closed_pipe net_closed deadline_exceeded foreign : GoError
  message : String → GoError

pub data Result {ℓ} (A : Type ℓ) : Type ℓ where
  err : GoError → Result A
  ok : A → Result A

infixl 5 ◌>>=◌ ◌>>◌
abbrev pub ◌>>=◌ {ℓ κ} : {A : Type ℓ} {B : Type κ} → Result A → (A → Result B) → Result B
err failure >>= go_on = err failure
ok value >>= go_on = go_on value

abbrev pub ◌>>◌ {ℓ} : {B : Type ℓ} → Result (Unit {0}) → Result B → Result B
err failure >> after = err failure
ok done >> after = after

pub Result-cases {ℓ} :
    {A : Type ℓ} (r : Result A) → ((a : A) × (r ≡ ok a)) ⊎ ((e : GoError) × (r ≡ err e))
Result-cases (ok a) = inl (a, refl)
Result-cases (err e) = inr (e, refl)
