-- ===== src/Client/Exec.antt =====
-- crates/jcr/src/registry.rs, lines 29-54 and 475-491, and resume.rs, lines 13-69: the state of the client, what it
-- calls, and its actions as state passing with errors.
use jcr.Prelude.{
  ℕ, Bool, true, false, Option, none, some, List, [], ◌∷◌, if◌then◌else◌, Bytes, bytes_eq, Result,
  ok, err,
}
use jcr.Server.Types.{HeaderValue}

pub data Method : Type 0 where
  get head post patch put : Method

pub data Authorization : Type 0 where
  anonymous : Authorization
  bearer : Bytes → Authorization
  basic : Bytes → Bytes → Authorization

pub record Request : Type 0 where
  pub method : Method
  pub url : Bytes
  pub authorization : Authorization
  pub content_type : Option Bytes
  pub content_range : Option Bytes
  pub body : Bytes

-- `TokenResponse`
pub record TokenResponse : Type 0 where
  pub token : Option Bytes
  pub access_token : Option Bytes

-- What the client reads of a response; `json` is the body as a `TokenResponse`, if it is one.
pub record HttpResponse : Type 0 where
  pub status : ℕ
  pub location : HeaderValue
  pub range : HeaderValue
  pub www_authenticate : HeaderValue
  pub json : Option TokenResponse

-- `is_timeout() || is_connect()`, and the other errors of a request
pub data TransportError : Type 0 where
  unreachable broken : TransportError

-- the errors, for each of their messages
pub data ClientError : Type 0 where
  transport invalid_url exhausted : ClientError
  refused : ℕ → ClientError
  missing_location missing_range invalid_range : ClientError
  invalid_token_response empty_token : ClientError
  unreadable_file unwritable_state : ClientError
  unexpected_offset : ℕ → ℕ → ClientError
  wrong_digest out_of_fuel : ClientError
  no_challenge : ℕ → ClientError
  omitted_challenge other_authentication omitted_realm invalid_registry : ClientError

-- `ResumeEntry`
pub record ResumeEntry : Type 0 where
  pub location : Bytes
  pub offset : ℕ

abbrev pub ResumeData : Type 0
ResumeData = List (Bytes × ResumeEntry)

-- Code of other packages, over the state `N` of the network, the registry and the disk: requests, the
-- file of the resumable uploads, URLs.
pub record Environment (N : Type 0) : Type 0 where
  pub send : Request → N → Result TransportError HttpResponse × N
  -- `write_atomic`, false for an error
  pub save : ResumeData → N → Bool × N
  -- `base.join`, and `Url::parse` with it
  pub join : Bytes → Option Bytes
  pub resolve : Bytes → Option Bytes
  -- `append_pair`, and `query`
  pub with_pairs : Bytes → List (Bytes × Bytes) → Bytes
  -- `utf8_percent_encode`
  pub percent_encode : Bytes → Bytes

-- `Challenge`
pub record Challenge : Type 0 where
  pub realm : Bytes
  pub service : Bytes

-- `RegistryClient`, less its token
pub record RegistryClient : Type 0 where
  pub repository : Bytes
  pub username : Bytes
  pub secret : Bytes
  pub challenge : Challenge

pub record ClientState (N : Type 0) : Type 0 where
  pub network : N
  pub token : Bytes
  pub uploads : ResumeData

abbrev pub Client : Type 0 → Type 0 → Type 0
Client N A = ClientState N → Result ClientError A × ClientState N

module _ {N A : Type 0} where
  unfoldable pub pure : A → Client N A
  pure a s = (ok a, s)

  unfoldable pub throw : ClientError → Client N A
  throw e s = (err e, s)

  unfoldable pub lift : Result ClientError A → Client N A
  lift r s = (r, s)

  abbrev pub as_value :
      Result ClientError A × ClientState N
      → Result ClientError (Result ClientError A) × ClientState N
  as_value (r, s) = (ok r, s)

  -- an action whose failure is looked at
  unfoldable pub attempt : Client N A → Client N (Result ClientError A)
  attempt m s = as_value (m s)

module _ {N X Y : Type 0} where
  abbrev pub continue :
      Result ClientError X × ClientState N → (X → Client N Y) → Result ClientError Y × ClientState N
  continue (ok value, s) rest = rest value s
  continue (err e, s) rest = (err e, s)

  infixl 5 ◌>>=◌
  unfoldable pub ◌>>=◌ : Client N X → (X → Client N Y) → Client N Y
  ◌>>=◌ first rest s = continue (first s) rest

  infixl 5 ◌>>◌
  abbrev pub ◌>>◌ : Client N X → Client N Y → Client N Y
  first >> second = first >>= λ _. second

abbrev pub resume_entry : Bytes → ResumeData → Option ResumeEntry
resume_entry key [] = none
resume_entry key ((k, entry) ∷ rest) = if bytes_eq k key then some entry else resume_entry key rest

abbrev pub without : Bytes → ResumeData → ResumeData
without key [] = []
without key ((k, entry) ∷ rest) =
    let others = without key rest in if bytes_eq k key then others else (k, entry) ∷ others

module _ {N : Type 0} where
  unfoldable pub current_token : Client N Bytes
  current_token s = (ok s.token, s)

  unfoldable pub set_token : Bytes → Client N (Unit {0})
  set_token token s = (ok tt, record s { token = token })

  -- the request, whose errors the caller looks at
  unfoldable pub send : Environment N → Request → Client N (Result TransportError HttpResponse)
  send environment request s =
      let (r, n) = environment.send request s.network in (ok r, record s { network = n })

  abbrev pub saved : Bool → ClientState N → Result ClientError (Unit {0}) × ClientState N
  saved true s = (ok tt, s)
  saved false s = (err unwritable_state, s)

  -- The map is changed before the file is written, and stays changed where that fails.
  abbrev pub store : Environment N → ResumeData → Client N (Unit {0})
  store environment uploads s =
      let (written, n) = environment.save uploads s.network in
      saved written (record s { network = n; uploads = uploads })

  -- `ResumeStore::get`, `set` and `remove`
  unfoldable pub resume_get : Bytes → Client N (Option ResumeEntry)
  resume_get key s = (ok (resume_entry key s.uploads), s)

  unfoldable pub resume_set : Environment N → Bytes → ResumeEntry → Client N (Unit {0})
  resume_set environment key entry s = store environment ((key, entry) ∷ without key s.uploads) s

  unfoldable pub resume_remove : Environment N → Bytes → Client N (Unit {0})
  resume_remove environment key s = store environment (without key s.uploads) s
