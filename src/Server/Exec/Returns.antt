-- ===== src/Server/Exec/Returns.antt =====
-- What a handler that returned has done, one rule for each way to start a handler.
use jcr.Prelude.{
  false-true, ◌≡◌, refl, sym, ap, inl, inr, Bool, true, false, Option, none, some, if◌then◌else◌,
  Option-cases, Result, ok, err, ok_or, is_ok,
}
use mathlib.Core.Path.{subst}
use jcr.Storage
use jcr.Storage.{Call}
use jcr.Server.Error.{AppError}
use jcr.Server.Database.{Database}
use jcr.Server.Exec.{
  World, Exec, pure, throw, lift, gets, fetch, call, call_ignored, transaction, modify, execute,
  bind-eq-ok, from_storage,
}
use jcr.Server.Exec
use jcr.Server.Exec.Keeps.{Keeps}

-- Where `m` returns from `w`, what it returns satisfies `Q`.
pub record Returns {S A : Type 0} (m : Exec S A) (w : World S) (Q : A → World S → Type 0)
    : Type 0 where
  pub at : (a : A) (w' : World S) → m w ≡ (ok a, w') → Q a w'

-- From the rules to a statement on the run itself.
pub returned_ok :
    {S A : Type 0} (m : Exec S A) (w : World S) (P : Database → Type 0)
    → Returns m w (λ a w'. P w'.db)
    → is_ok (m w).0 ≡ true
    → P (m w).1.db
returned_ok {S} {A} m w P k h = of (m w) k.at h
  where
    of :
        (p : Result AppError A × World S)
        → ((a : A) (w' : World S) → p ≡ (ok a, w') → P w'.db)
        → is_ok p.0 ≡ true
        → P p.1.db
    of (ok a, w') k h = k a w' refl
    of (err e, w') k h = absurd (false-true h)

module _ {S A : Type 0} where
  abbrev Returned : Result AppError A × World S → (A → World S → Type 0) → Type 0
  Returned (ok a, w) Q = Q a w
  Returned (err e, w) Q = Unit

  of_returned :
      (p : Result AppError A × World S) (Q : A → World S → Type 0) (a : A) (w : World S)
      → p ≡ (ok a, w)
      → Returned p Q
      → Q a w
  of_returned p Q a w h q = subst (λ p. Returned p Q) h q

  pub Returns-of :
      (m : Exec S A) (w : World S) (Q : A → World S → Type 0) → Returned (m w) Q → Returns m w Q
  Returns-of m w Q q = record { at = λ a w' h. of_returned (m w) Q a w' h q }

  -- What holds whatever is returned,
  pub Returns-any :
      (m : Exec S A) (w : World S) (Q : A → World S → Type 0)
      → ((a : A) (w' : World S) → Q a w')
      → Returns m w Q
  Returns-any m w Q q = record { at = λ a w' h. q a w' }

  -- and what follows from what is known to hold.
  pub Returns-mono :
      (m : Exec S A) (w : World S) (P Q : A → World S → Type 0)
      → Returns m w P
      → ((a : A) (w' : World S) → P a w' → Q a w')
      → Returns m w Q
  Returns-mono m w P Q p k = record { at = λ a w' h. k a w' (p.at a w' h) }

  pub Returns-pure : (a : A) (w : World S) (Q : A → World S → Type 0) → Q a w → Returns (pure a) w Q
  unfolding pure
  Returns-pure a w Q q = Returns-of (pure a) w Q q

  pub Returns-throw :
      (e : AppError) (w : World S) (Q : A → World S → Type 0) → Returns (throw e) w Q
  unfolding throw
  Returns-throw e w Q = Returns-of (throw e) w Q tt

  pub Returns-lift :
      (r : Result AppError A) (w : World S) (Q : A → World S → Type 0)
      → ((a : A) → r ≡ ok a → Q a w)
      → Returns (lift r) w Q
  unfolding lift
  Returns-lift r w Q q = record {
    at = λ a w' h. subst (Q a) (ap (λ p. p.1) h) (q a (ap (λ p. p.0) h));
  }

  pub Returns-if :
      (b : Bool) (m n : Exec S A) (w : World S) (Q : A → World S → Type 0)
      → (b ≡ true → Returns m w Q)
      → (b ≡ false → Returns n w Q)
      → Returns (if b then m else n) w Q
  Returns-if true m n w Q km kn = km refl
  Returns-if false m n w Q km kn = kn refl

  pub Returns-gets :
      (f : Database → A) (w : World S) (Q : A → World S → Type 0)
      → Q (f w.db) w
      → Returns (gets f) w Q
  unfolding gets
  Returns-gets f w Q q = Returns-of (gets f) w Q q

  pub Returns-fetch :
      (f : Database → Option A) (e : AppError) (w : World S) (Q : A → World S → Type 0)
      → ((a : A) → f w.db ≡ some a → Q a w)
      → Returns (fetch f e) w Q
  unfolding fetch
  Returns-fetch f e w Q q = elim (Option-cases (f w.db)) [
    | inl n ↦ Returns-of (fetch f e) w Q (subst (λ o. Returned (ok_or o e, w) Q) (sym n) tt)
    | inr (a, s) ↦
        Returns-of (fetch f e) w Q (subst (λ o. Returned (ok_or o e, w) Q) (sym s) (q a s))
  ]

  pub Returns-call :
      (c : Call S A) (w : World S) (Q : A → World S → Type 0)
      → ((a : A) (s : S) → c w.store ≡ (ok a, s) → Q a (record w { store = s }))
      → Returns (call c) w Q
  unfolding call
  Returns-call c w Q q = Returns-of (call c) w Q (of (c w.store) q)
    where
      of :
          (p : Result Storage.StorageError A × S)
          → ((a : A) (s : S) → p ≡ (ok a, s) → Q a (record w { store = s }))
          → Returned (from_storage p.0, record w { store = p.1 }) Q
      of (ok a, s) q = q a s refl
      of (err e, s) q = tt

  pub Returns-transaction :
      (m : Exec S A) (w : World S) (Q : A → World S → Type 0)
      → Returns m w Q
      → Returns (transaction m) w Q
  unfolding transaction
  Returns-transaction m w Q k = Returns-of (transaction m) w Q (of (m w) k.at)
    where
      of :
          (p : Result AppError A × World S)
          → ((a : A) (w' : World S) → p ≡ (ok a, w') → Q a w')
          → Returned (Exec.settle w p) Q
      of (ok a, w') q = q a w' refl
      of (err e, w') q = tt

  -- A transaction keeps what it holds whenever it is committed.
  pub Keeps-committed :
      {P : Database → Type 0} (m : Exec S A)
      → ((w : World S) → P w.db → Returns m w (λ a w'. P w'.db))
      → Keeps P (transaction m)
  unfolding transaction
  Keeps-committed {P} m k = record { at = λ w h. of w (m w) h (k w h).at }
    where
      of :
          (w : World S) (p : Result AppError A × World S)
          → P w.db
          → ((a : A) (w' : World S) → p ≡ (ok a, w') → P w'.db)
          → P (Exec.settle w p).1.db
      of w (ok a, w') h q = q a w' refl
      of w (err e, w') h q = h

module _ {S : Type 0} where
  pub Returns-call_ignored :
      {A : Type 0} (c : Call S A) (w : World S) (Q : Unit {0} → World S → Type 0)
      → ((s : S) → Q tt (record w { store = s }))
      → Returns (call_ignored c) w Q
  unfolding call_ignored
  Returns-call_ignored c w Q q = Returns-of (call_ignored c) w Q (q (c w.store).1)

  pub Returns-modify :
      (f : Database → Database) (w : World S) (Q : Unit {0} → World S → Type 0)
      → Q tt (record w { db = f w.db })
      → Returns (modify f) w Q
  unfolding modify
  Returns-modify f w Q q = Returns-of (modify f) w Q q

  pub Returns-execute :
      (f : Database → Option Database) (w : World S) (Q : Unit {0} → World S → Type 0)
      → ((d : Database) → f w.db ≡ some d → Q tt (record w { db = d }))
      → Returns (execute f) w Q
  unfolding execute
  Returns-execute f w Q q = Returns-of (execute f) w Q (of (f w.db) q)
    where
      of :
          (o : Option Database)
          → ((d : Database) → o ≡ some d → Q tt (record w { db = d }))
          → Returned (Exec.attempted w o) Q
      of none q = tt
      of (some d) q = q d refl

module _ {S X Y : Type 0} where
  pub Returns-bind :
      (m : Exec S X) (f : X → Exec S Y) (w : World S) (Q : Y → World S → Type 0)
      → Returns m w (λ a w'. Returns (f a) w' Q)
      → Returns (Exec.◌>>=◌ m f) w Q
  Returns-bind m f w Q k = record {
    at = λ b w'' h. let (a, w', e, g) = bind-eq-ok m f w w'' b h in (k.at a w' e).at b w'' g;
  }
