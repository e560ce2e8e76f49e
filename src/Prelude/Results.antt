-- ===== src/Prelude/Results.antt =====
-- Fallible code: a value or an error, with `?` as bind.
use mathlib.Core.Path.{◌≡◌, refl, ap}
use mathlib.Core.Logic.{◌⊎◌, inl, inr}
use mathlib.Core.Bool.{Bool, true, false}
use mathlib.Core.Option.{Option, none, some}

pub data Result {ℓ} (E A : Type ℓ) : Type ℓ where
  ok : A → Result E A
  err : E → Result E A

module _ {ℓ} {E A : Type ℓ} where
  -- `Option::ok_or`
  abbrev pub ok_or : Option A → E → Result E A
  ok_or none e = err e
  ok_or (some a) e = ok a

  abbrev pub is_ok : Result E A → Bool
  is_ok (ok a) = true
  is_ok (err e) = false

  -- `Result::ok`
  abbrev pub to_option : Result E A → Option A
  to_option (ok a) = some a
  to_option (err e) = none

module _ {ℓ} {E X Y : Type ℓ} where
  infixl 5 ◌>>=◌
  abbrev pub ◌>>=◌ : Result E X → (X → Result E Y) → Result E Y
  ok value >>= next = next value
  err e >>= next = err e

  infixl 5 ◌>>◌
  abbrev pub ◌>>◌ : Result E X → Result E Y → Result E Y
  first >> second = first >>= λ _. second

  -- A chain that succeeds has succeeded at each step.
  pub >>=-eq-ok :
      (first : Result E X) (next : X → Result E Y) {end : Y}
      → (first >>= next) ≡ ok end
      → (value : X) × (first ≡ ok value) × (next value ≡ ok end)
  >>=-eq-ok (ok value) next reached = (value, refl, reached)
  >>=-eq-ok (err e) next reached = cc

module _ {ℓ} {E F A : Type ℓ} where
  abbrev pub map_err : (E → F) → Result E A → Result F A
  map_err f (ok a) = ok a
  map_err f (err e) = err (f e)

pub ok-injective {ℓ} : {E A : Type ℓ} {a b : A} → ◌≡◌ {A = Result E A} (ok a) (ok b) → a ≡ b
ok-injective {E} {A} {a} p = ap (or_else a) p
  where
    or_else : A → Result E A → A
    or_else d (ok a) = a
    or_else d (err e) = d

pub Result-cases {ℓ} :
    {E A : Type ℓ} (r : Result E A) → ((a : A) × (r ≡ ok a)) ⊎ ((e : E) × (r ≡ err e))
Result-cases (ok a) = inl (a, refl)
Result-cases (err e) = inr (e, refl)

-- Constructors that differ.
pub none-some {ℓ} : {A : Type ℓ} {a : A} → ◌≡◌ {A = Option A} none (some a) → ⊥
none-some h = cc

pub err-ok {ℓ} : {E A : Type ℓ} {e : E} {a : A} → ◌≡◌ {A = Result E A} (err e) (ok a) → ⊥
err-ok h = cc

pub false-true : false ≡ true → ⊥
false-true h = cc

pub true-false : true ≡ false → ⊥
true-false h = cc
