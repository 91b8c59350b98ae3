-- ===== src/Prelude/Results.antt =====
-- C++ exceptions as values: the classes that the program throws, without their messages.
use mathlib.Core.Path.{◌≡◌, refl}
use mathlib.Core.Logic.{◌⊎◌, inl, inr}
use mathlib.Core.Bool.{Bool, true, false}
use mathlib.Core.Option.{Option, none, some}
use mathlib.Core.List.{List}
use Prim.Native.Nat.{ℕ}
use hbmsim.Prelude.Lists.{get_elem?}

pub data Error : Type 0 where
  invalid_argument out_of_range overflow_error logic_error : Error

-- What a call does: throw, or return.
pub data Result {ℓ} (R : Type ℓ) : Type ℓ where
  err : (thrown : Error) → Result R
  ok : (returned : R) → Result R

module _ {ℓ κ} {R : Type ℓ} {S : Type κ} where
  infixl 5 ◌>>=◌
  abbrev pub ◌>>=◌ : Result R → (R → Result S) → Result S
  err e >>= next = err e
  ok r >>= next = next r

module _ {κ} {S : Type κ} where
  -- After a call that returns nothing.
  infixl 5 ◌>>◌
  abbrev pub ◌>>◌ : Result (Unit {0}) → Result S → Result S
  err e >> next = err e
  ok tt >> next = next

-- What a call with a loop on fuel does: `none` says that the fuel ran out.
abbrev pub Ran {ℓ} : Type ℓ → Type ℓ
Ran R = Option (Result R)

module _ {ℓ κ} {R : Type ℓ} {S : Type κ} where
  infixl 5 ◌>>>◌
  abbrev pub ◌>>>◌ : Ran R → (R → Ran S) → Ran S
  none >>> next = none
  some (err e) >>> next = some (err e)
  some (ok r) >>> next = next r

-- `if (test) throw e;`
abbrev pub throw_if : Bool → Error → Result (Unit {0})
throw_if true e = err e
throw_if false e = ok tt

-- `.at()` and the like: the exception of a missing value.
abbrev pub or_throw {ℓ} : {A : Type ℓ} → Option A → Error → Result A
or_throw none e = err e
or_throw (some a) e = ok a

pub ok-injective {ℓ} : {A : Type ℓ} {a b : A} → ok a ≡ ok b → a ≡ b
ok-injective e = cc

pub Result-cases {ℓ} :
    {A : Type ℓ} (r : Result A) → ((e : Error) × (r ≡ err e)) ⊎ ((a : A) × (r ≡ ok a))
Result-cases (ok a) = inr (a, refl)
Result-cases (err e) = inl (e, refl)

pub Ran-cases {ℓ} :
    {A : Type ℓ} (r : Ran A)
    → (r ≡ none) ⊎ (((e : Error) × (r ≡ some (err e))) ⊎ ((a : A) × (r ≡ some (ok a))))
Ran-cases none = inl refl
Ran-cases (some (err e)) = inr (inl (e, refl))
Ran-cases (some (ok a)) = inr (inr (a, refl))

-- `.at(index)`
abbrev pub get_at : {A : Type 0} → List A → ℕ → Result A
get_at xs index = or_throw (get_elem? xs index) out_of_range
