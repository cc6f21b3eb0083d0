-- ===== src/Base/Results.antt =====
-- A run of C++ code: a value, or the reason why there is none.
use mathlib.Core.Logic.{◌⊎◌, inl, inr}
use mathlib.Core.Path.{◌≡◌, refl, ap}
use mathlib.Core.Option.{Option, none, some}
use mathlib.Core.Bool.{Bool, true, false}

-- `null_pointer`, `out_of_bounds`, `uninitialised` and `dangling` are undefined behaviour,
-- `assertion` is a failed `assert`, and `out_of_fuel` a loop that has not ended within its rounds.
pub data Error : Type 0 where
  null_pointer out_of_bounds uninitialised dangling assertion out_of_fuel : Error

pub data Result {ℓ} (A : Type ℓ) : Type ℓ where
  err : Error → Result A
  ok : A → Result A

-- `assert(b)`
abbrev pub assert : Bool → Result (Unit {0})
assert false = err assertion
assert true = ok tt

-- What follows a run, on its value.
infixl 5 ◌>>=◌
abbrev pub ◌>>=◌ {ℓ κ} : {B : Type κ} {A : Type ℓ} → Result A → (A → Result B) → Result B
err reason >>= next = err reason
ok value >>= next = next value

-- What follows a run that has no value of its own.
infixl 5 ◌>>◌
abbrev pub ◌>>◌ {κ} : {B : Type κ} → Result (Unit {0}) → Result B → Result B
run >> next = run >>= λ done. next

-- A variable or a slot that may never have been written.
abbrev pub read {ℓ} : {A : Type ℓ} → Option A → Result A
read none = err uninitialised
read (some a) = ok a

-- A chain that gives a result has a first run that gives one.
pub >>=-eq-ok {ℓ κ} :
    {A : Type ℓ} {B : Type κ} (run : Result A) (next : A → Result B) {result : B}
    → (run >>= next) ≡ ok result
    → (value : A) × (run ≡ ok value) × (next value ≡ ok result)
>>=-eq-ok (err reason) next h = cc
>>=-eq-ok (ok value) next h = (value, refl, h)

-- The value of a result, with a value for those that have none.
abbrev value_or {ℓ} : {A : Type ℓ} → A → Result A → A
value_or d (ok a) = a
value_or d (err e) = d

pub ok-injective {ℓ} : {A : Type ℓ} {a b : A} → ok a ≡ ok b → a ≡ b
ok-injective {a} p = ap (value_or a) p

pub Result-cases {ℓ} :
    {A : Type ℓ} (r : Result A) → ((a : A) × (r ≡ ok a)) ⊎ ((e : Error) × (r ≡ err e))
Result-cases (ok a) = inl (a, refl)
Result-cases (err e) = inr (e, refl)
