-- ===== src/Server/Exec/Keeps.antt =====
-- Invariants of handlers, one rule for each way to build a handler.
use jcr.Prelude.{◌≡◌, refl, Bool, true, false, Option, none, some, if◌then◌else◌, Result, ok, err}
use jcr.Storage.{Call}
use jcr.Server.Error.{AppError}
use jcr.Server.Database.{Database}
use jcr.Server.Exec.{
  World, Exec, pure, throw, lift, gets, fetch, call, call_ignored, transaction, modify, execute,
  try_execute, attempt,
}
use jcr.Server.Exec

-- `m` keeps `P` of the database, whether it returns or fails.
pub record Keeps {S A : Type 0} (P : Database → Type 0) (m : Exec S A) : Type 0 where
  pub at : (w : World S) → P w.db → P (m w).1.db

module _ {S A : Type 0} {P : Database → Type 0} where
  pub Keeps-pure : (a : A) → Keeps P (pure {S = S} a)
  unfolding pure
  Keeps-pure a = record { at = λ w h. h }

  pub Keeps-throw : (e : AppError) → Keeps P (throw {S = S} {A = A} e)
  unfolding throw
  Keeps-throw e = record { at = λ w h. h }

  pub Keeps-lift : (r : Result AppError A) → Keeps P (lift {S = S} r)
  unfolding lift
  Keeps-lift r = record { at = λ w h. h }

  pub Keeps-gets : (f : Database → A) → Keeps P (gets {S = S} f)
  unfolding gets
  Keeps-gets f = record { at = λ w h. h }

  pub Keeps-fetch : (f : Database → Option A) (e : AppError) → Keeps P (fetch {S = S} f e)
  unfolding fetch
  Keeps-fetch f e = record { at = λ w h. h }

  pub Keeps-call : (c : Call S A) → Keeps P (call c)
  unfolding call
  Keeps-call c = record { at = λ w h. h }

  pub Keeps-call_ignored : (c : Call S A) → Keeps P (call_ignored c)
  unfolding call_ignored
  Keeps-call_ignored c = record { at = λ w h. h }

  pub Keeps-attempt : (c : Call S A) → Keeps P (attempt c)
  unfolding attempt
  Keeps-attempt c = record { at = λ w h. h }

  pub Keeps-transaction : (m : Exec S A) → Keeps P m → Keeps P (transaction m)
  unfolding transaction
  Keeps-transaction m k = record { at = λ w h. settled w (m w) h (k.at w h) }
    where
      settled :
          (w : World S) (r : Result AppError A × World S)
          → P w.db
          → P r.1.db
          → P (Exec.settle w r).1.db
      settled w (ok a, w') h k = k
      settled w (err e, w') h k = h

  pub Keeps-if :
      (test : Bool) (chosen instead : Exec S A)
      → (test ≡ true → Keeps P chosen)
      → (test ≡ false → Keeps P instead)
      → Keeps P (if test then chosen else instead)
  Keeps-if true chosen instead holds fails = holds refl
  Keeps-if false chosen instead holds fails = fails refl

module _ {S : Type 0} {P : Database → Type 0} where
  pub Keeps-modify :
      (f : Database → Database) → ((d : Database) → P d → P (f d)) → Keeps P (modify {S = S} f)
  unfolding modify
  Keeps-modify f k = record { at = λ w h. k w.db h }

  pub Keeps-execute :
      (f : Database → Option Database)
      → ((d d' : Database) → f d ≡ some d' → P d → P d')
      → Keeps P (execute {S = S} f)
  unfolding execute
  Keeps-execute f k = record { at = λ w h. attempted w (f w.db) (λ d'. k w.db d') h }
    where
      attempted :
          (w : World S) (o : Option Database)
          → ((d' : Database) → o ≡ some d' → P w.db → P d')
          → P w.db
          → P (Exec.attempted w o).1.db
      attempted w none k h = h
      attempted w (some d) k h = k d refl h

  pub Keeps-try_execute :
      (f : Database → Option Database)
      → ((d d' : Database) → f d ≡ some d' → P d → P d')
      → Keeps P (try_execute {S = S} f)
  unfolding try_execute
  Keeps-try_execute f k = record { at = λ w h. tried w (f w.db) (λ d'. k w.db d') h }
    where
      tried :
          (w : World S) (o : Option Database)
          → ((d' : Database) → o ≡ some d' → P w.db → P d')
          → P w.db
          → P (Exec.tried w o).1.db
      tried w none k h = h
      tried w (some d) k h = k d refl h

module _ {S X Y : Type 0} {P : Database → Type 0} where
  pub Keeps-bind :
      (first : Exec S X) (rest : X → Exec S Y)
      → Keeps P first
      → ((value : X) → Keeps P (rest value))
      → Keeps P (Exec.◌>>=◌ first rest)
  unfolding Exec.◌>>=◌
  Keeps-bind first rest before after = record {
    at = λ w h. let (result, w') = first w in continued result w' (before.at w h);
  }
    where
      continued :
          (result : Result AppError X) (w : World S) → P w.db → P (Exec.continue result rest w).1.db
      continued (ok value) w h = (after value).at w h
      continued (err e) w h = h

  -- a result that is known
  pub Keeps-ok : (a : X) (f : X → Exec S Y) → Keeps P (f a) → Keeps P (Exec.◌>>=◌ (lift (ok a)) f)
  unfolding Exec.◌>>=◌ lift
  Keeps-ok a f k = record { at = λ w h. k.at w h }

  -- what an option decides
  pub Keeps-option :
      (o : Option X) (missing : Exec S Y) (found : X → Exec S Y)
      → Keeps P missing
      → ((value : X) → Keeps P (found value))
      → Keeps P (elim o [ none ↦ missing | some value ↦ found value ])
  Keeps-option none missing found holds each = holds
  Keeps-option (some value) missing found holds each = each value
