-- ===== src/Server/Exec.antt =====
-- Handlers as state passing: a request changes the database and the object store, and returns a
-- value or an error. What was written before an error stays written, but for a transaction.
pub mod Keeps
pub mod Returns
use jcr.Prelude.{
  err-ok, ℕ, zero, suc, ◌+◌, ◌-◌, ◌*◌, ◌/◌, ◌%◌, ◌^◌, ◌≤◌, ◌<◌, String, ◌≡◌, refl, sym, ap, ◌∙◌,
  ◌≢◌, ◌↔◌, ◌⊎◌, inl, inr, Bool, true, false, not, ◌&&◌, ◌||◌, Option, none, some, List, [], ◌∷◌,
  ◌++◌, map, reverse, arith, ltb, leb, ◌==◌, ==_iff, if◌then◌else◌, Bool-cases, Option-cases,
  &&-eq-true, ||-eq-false, length, all, any, is_empty, length-append, all-append, any-append, Bytes,
  codes, bytes_eq, bytes_eq_refl, eq_of_bytes_eq, bytes_eq_iff, Result, ok, err, ok_or, is_ok,
  to_option, map_err, ok-injective,
}
use jcr.Storage.{StorageError, Call}
use jcr.Server.Error.{AppError, storage, database}
use jcr.Server.Database.{Database}

pub record World (S : Type 0) : Type 0 where
  pub db : Database
  pub store : S

abbrev pub Exec : Type 0 → Type 0 → Type 0
Exec S A = World S → Result AppError A × World S

abbrev pub from_storage : {A : Type 0} → Result StorageError A → Result AppError A
from_storage (ok a) = ok a
from_storage (err e) = err storage

module _ {S A : Type 0} where
  unfoldable pub pure : A → Exec S A
  pure a w = (ok a, w)

  unfoldable pub throw : AppError → Exec S A
  throw e w = (err e, w)

  -- `?` on a plain result
  unfoldable pub lift : Result AppError A → Exec S A
  lift r w = (r, w)

  -- a query
  unfoldable pub gets : (Database → A) → Exec S A
  gets f w = (ok (f w.db), w)

  -- a query that may find nothing
  unfoldable pub fetch : (Database → Option A) → AppError → Exec S A
  fetch f e w = (ok_or (f w.db) e, w)

  -- a call of the object store, under `?`
  unfoldable pub call : Call S A → Exec S A
  call c w = let (r, s) = c w.store in (from_storage r, record w { store = s })

  -- a call whose failure is only logged
  unfoldable pub call_ignored : Call S A → Exec S (Unit {0})
  call_ignored c w = let (r, s) = c w.store in (ok tt, record w { store = s })

  -- a call whose failure the handler looks at
  unfoldable pub attempt : Call S A → Exec S (Result StorageError A)
  attempt c w = let (r, s) = c w.store in (ok r, record w { store = s })

  abbrev settle : World S → Result AppError A × World S → Result AppError A × World S
  settle w (ok a, w') = (ok a, w')
  settle w (err e, w') = (err e, record w' { db = w.db })

  -- An error before the commit rolls the database back; the object store keeps its changes.
  unfoldable pub transaction : Exec S A → Exec S A
  transaction m w = settle w (m w)

module _ {S : Type 0} where
  -- a statement that cannot violate a constraint
  unfoldable pub modify : (Database → Database) → Exec S (Unit {0})
  modify f w = (ok tt, record w { db = f w.db })

  abbrev attempted : World S → Option Database → Result AppError (Unit {0}) × World S
  attempted w none = (err database, w)
  attempted w (some d) = (ok tt, record w { db = d })

  -- a statement that is err-ok where it would violate a constraint
  unfoldable pub execute : (Database → Option Database) → Exec S (Unit {0})
  execute f w = attempted w (f w.db)

  abbrev tried : World S → Option Database → Result AppError Bool × World S
  tried w none = (ok false, w)
  tried w (some d) = (ok true, record w { db = d })

  -- a statement whose refusal the handler looks at
  unfoldable pub try_execute : (Database → Option Database) → Exec S Bool
  try_execute f w = tried w (f w.db)

module _ {S X Y : Type 0} where
  -- An error ends the handler, with what was written so far.
  abbrev pub continue : Result AppError X → (X → Exec S Y) → Exec S Y
  continue (ok value) rest w = rest value w
  continue (err e) rest w = (err e, w)

  infixl 5 ◌>>=◌
  unfoldable pub ◌>>=◌ : Exec S X → (X → Exec S Y) → Exec S Y
  ◌>>=◌ first rest w = let (result, w') = first w in continue result rest w'

  infixl 5 ◌>>◌
  abbrev pub ◌>>◌ : Exec S X → Exec S Y → Exec S Y
  first >> second = first >>= λ _. second

  continued :
      (p : Result AppError X × World S) (f : X → Exec S Y) (w'' : World S) (b : Y)
      → continue p.0 f p.1 ≡ (ok b, w'')
      → (a : X) × (w' : World S) × (p ≡ (ok a, w')) × (f a w' ≡ (ok b, w''))
  continued (ok a, w') f w'' b h = (a, w', refl, h)
  continued (err e, w') f w'' b h = absurd (err-ok (ap (λ q. q.0) h))

  -- X run that returned ran its first part, and then the rest.
  pub bind-eq-ok :
      (m : Exec S X) (f : X → Exec S Y) (w w'' : World S) (b : Y)
      → (m >>= f) w ≡ (ok b, w'')
      → (a : X) × (w' : World S) × (m w ≡ (ok a, w')) × (f a w' ≡ (ok b, w''))
  unfolding ◌>>=◌
  bind-eq-ok m f w w'' b h = continued (m w) f w'' b h
