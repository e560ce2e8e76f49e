-- ===== src/Client/Runs.antt =====
-- What a run of the client ends in, one rule for each way to build an action.
use jcr.Prelude.{◌≡◌, refl, Bool, true, false, if◌then◌else◌, Result, ok, err}
use mathlib.Core.Path.{subst}
use jcr.Client.Exec.{
  ClientState, Client, ClientError, Environment, Request, HttpResponse, TransportError, pure, throw,
  lift, attempt, current_token, set_token, send, ◌>>=◌,
}
use jcr.Client.Exec

module _ {N A : Type 0} where
  abbrev pub Outcome :
      (A → ClientState N → Type 0)
      → (ClientState N → Type 0)
      → Result ClientError A × ClientState N
      → Type 0
  Outcome Q E (ok a, s) = Q a s
  Outcome Q E (err e, s) = E s

  -- From `s` the action returns with `Q`, or fails with `E`.
  pub record Runs (m : Client N A) (s : ClientState N) (Q : A → ClientState N → Type 0)
      (E : ClientState N → Type 0) : Type 0 where
    pub at : Outcome Q E (m s)

  module _ (s : ClientState N) (Q : A → ClientState N → Type 0) (E : ClientState N → Type 0) where
    pub Runs-pure : (a : A) → Q a s → Runs (pure a) s Q E
    unfolding pure
    Runs-pure a q = record { at = q }

    pub Runs-throw : (e : ClientError) → E s → Runs (throw e) s Q E
    unfolding throw
    Runs-throw e q = record { at = q }

    pub Runs-lift :
        (r : Result ClientError A) → ((a : A) → r ≡ ok a → Q a s) → E s → Runs (lift r) s Q E
    unfolding lift
    Runs-lift (ok a) q f = record { at = q a refl }
    Runs-lift (err e) q f = record { at = f }

    pub Runs-if :
        (b : Bool) (m n : Client N A)
        → (b ≡ true → Runs m s Q E)
        → (b ≡ false → Runs n s Q E)
        → Runs (if b then m else n) s Q E
    Runs-if true m n km kn = km refl
    Runs-if false m n km kn = kn refl

  Outcome-mono :
      (Q Q' : A → ClientState N → Type 0) (E E' : ClientState N → Type 0)
      (p : Result ClientError A × ClientState N)
      → ((a : A) (s : ClientState N) → Q a s → Q' a s)
      → ((s : ClientState N) → E s → E' s)
      → Outcome Q E p
      → Outcome Q' E' p
  Outcome-mono Q Q' E E' (ok a, s) k l o = k a s o
  Outcome-mono Q Q' E E' (err e, s) k l o = l s o

  pub Runs-mono :
      (m : Client N A) (s : ClientState N) (Q Q' : A → ClientState N → Type 0)
      (E E' : ClientState N → Type 0)
      → ((a : A) (s : ClientState N) → Q a s → Q' a s)
      → ((s : ClientState N) → E s → E' s)
      → Runs m s Q E
      → Runs m s Q' E'
  Runs-mono m s Q Q' E E' k l r = record { at = Outcome-mono Q Q' E E' (m s) k l r.at }

  abbrev pub Either :
      (A → ClientState N → Type 0)
      → (ClientState N → Type 0)
      → Result ClientError A
      → ClientState N
      → Type 0
  Either Q E (ok a) s = Q a s
  Either Q E (err e) s = E s

module _ {N A : Type 0} where
  pub Runs-attempt :
      (m : Client N A) (s : ClientState N) (Q : A → ClientState N → Type 0)
      (E F : ClientState N → Type 0)
      → Runs m s Q E
      → Runs (attempt m) s (Either Q E) F
  unfolding attempt
  Runs-attempt m s Q E F r = record { at = of (m s) r.at }
    where
      of :
          (p : Result ClientError A × ClientState N)
          → Outcome Q E p
          → Outcome (Either Q E) F (Exec.as_value p)
      of (ok a, s) o = o
      of (err e, s) o = o

  -- From the rules to statements on the run itself.
  pub returned :
      (m : Client N A) (s : ClientState N) (Q : A → ClientState N → Type 0)
      (E : ClientState N → Type 0) (a : A) (s' : ClientState N)
      → Runs m s Q E
      → m s ≡ (ok a, s')
      → Q a s'
  returned m s Q E a s' r h = subst (Outcome Q E) h r.at

  pub failed :
      (m : Client N A) (s : ClientState N) (Q : A → ClientState N → Type 0)
      (E : ClientState N → Type 0) (e : ClientError) (s' : ClientState N)
      → Runs m s Q E
      → m s ≡ (err e, s')
      → E s'
  failed m s Q E e s' r h = subst (Outcome Q E) h r.at

module _ {N X Y : Type 0} where
  pub Runs-bind :
      (m : Client N X) (f : X → Client N Y) (s : ClientState N) (Q : Y → ClientState N → Type 0)
      (E : ClientState N → Type 0)
      → Runs m s (λ a s'. Runs (f a) s' Q E) E
      → Runs (m >>= f) s Q E
  unfolding ◌>>=◌
  Runs-bind m f s Q E r = record { at = of (m s) r.at }
    where
      of :
          (p : Result ClientError X × ClientState N)
          → Outcome (λ a s'. Runs (f a) s' Q E) E p
          → Outcome Q E (Exec.continue p f)
      of (ok a, s) o = o.at
      of (err e, s) o = o

module _ {N : Type 0} where
  pub Runs-send :
      (environment : Environment N) (request : Request) (s : ClientState N)
      (Q : Result TransportError HttpResponse → ClientState N → Type 0) (E : ClientState N → Type 0)
      → Q
          (environment.send request s.network).0
          (record s { network = (environment.send request s.network).1 })
      → Runs (send environment request) s Q E
  unfolding send
  Runs-send environment request s Q E q = record { at = q }
