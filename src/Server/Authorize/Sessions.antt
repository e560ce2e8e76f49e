-- ===== src/Server/Authorize/Sessions.antt =====
-- auth.rs, authenticate, on the invariant of upload sessions.
use jcr.Prelude.{ℕ, not, Option, none, some, Bytes, codes, Result, ok, err}
use jcr.Scope.{AccessAction}
use jcr.Text.{strip_prefix}
use jcr.Server.Error.{AppError}
use jcr.Server.Types.{Repository, HeaderValue, Platform, into_oci_response}
use jcr.Server.Database.{Database}
use jcr.Server.Database.Rows.{PersonalAccessToken}
use jcr.Server.Exec.{World}
use jcr.Server.Exec.Keeps.{
  Keeps, Keeps-bind, Keeps-lift, Keeps-if, Keeps-throw, Keeps-modify, Keeps-gets, Keeps-pure,
  Keeps-option,
}
use jcr.Server.Session.Invariant.{IsValid}
use jcr.Server.Access.{find_repository}
use jcr.Server.Auth.{
  Principal, Credentials, touch_token, check_candidate, validate_pat, authenticate,
  authenticate_basic, authenticate_bearer, pat_prefix, decode_basic,
}
use jcr.Server.Authorize
use jcr.Server.Authorize.{Decision, granted, answered, authorize}

touched : (id now : ℕ) (db : Database) → IsValid db → IsValid (touch_token id now db)
unfolding touch_token
touched id now db v = record { unique = v.unique; sessions = v.sessions; owned = v.owned }

module _ {S : Type 0} (platform : Platform) (credentials : Credentials) where
  check_candidate-Keeps :
      (now : ℕ) (token : Bytes) (found : Option PersonalAccessToken)
      → Keeps {S = S} IsValid (check_candidate platform credentials now token found)
  unfolding check_candidate
  check_candidate-Keeps now token none = Keeps-pure _
  check_candidate-Keeps now token (some t) =
      Keeps-if (not (credentials.verify_password t.secret_hash token)) _ _ (λ _. Keeps-pure _)
        (λ _. Keeps-bind _ _ (Keeps-modify _ (touched t.id now)) (λ _. Keeps-gets _))

  validate_pat-Keeps :
      (now : ℕ) (username token : Bytes)
      → Keeps {S = S} IsValid (validate_pat platform credentials now username token)
  unfolding validate_pat
  validate_pat-Keeps now username token =
      Keeps-option (pat_prefix token) _ _ (Keeps-pure _) (λ prefix.
        Keeps-bind _ _ (Keeps-gets _) (λ candidate. check_candidate-Keeps now token candidate))

  authenticate_basic-Keeps :
      (now : ℕ) (value : Bytes)
      → Keeps {S = S} IsValid (authenticate_basic platform credentials now value)
  unfolding authenticate_basic
  authenticate_basic-Keeps now value =
      Keeps-option (decode_basic credentials value) _ _ (Keeps-throw _) (λ (username, token).
        Keeps-bind _ _ (validate_pat-Keeps now username token)
          (λ found. Keeps-bind _ _ (Keeps-lift _) (λ user. Keeps-pure _)))

  authenticate_bearer-Keeps :
      (now : ℕ) (token : Bytes)
      → Keeps {S = S} IsValid (authenticate_bearer platform credentials now token)
  unfolding authenticate_bearer
  authenticate_bearer-Keeps now token =
      Keeps-bind _ _ (Keeps-lift _) (λ claims. Keeps-bind _ _ (Keeps-gets _) (λ user. Keeps-pure _))

  authenticate-Keeps :
      (now : ℕ) (v : HeaderValue) → Keeps {S = S} IsValid (authenticate platform credentials now v)
  unfolding authenticate
  authenticate-Keeps now none = Keeps-pure _
  authenticate-Keeps now (some none) = Keeps-throw _
  authenticate-Keeps now (some (some value)) =
      Keeps-option (strip_prefix (codes "Bearer ") value) _ _ (authenticate_basic-Keeps now value)
        (λ token. authenticate_bearer-Keeps now token)

  pub authorize-Keeps :
      (now : ℕ) (realm : Bytes) (authorization : HeaderValue) (name : Bytes) (needed : AccessAction)
      → Keeps {S = S} IsValid (authorize platform credentials now realm authorization name needed)
  unfolding authorize
  authorize-Keeps now realm authorization name needed = record {
    at = λ w v. looked w (find_repository platform name w.db) v;
  }
    where
      after :
          (p : Result AppError (Option Principal) × World S) (r : Option Repository)
          → IsValid p.1.db
          → IsValid (Authorize.authenticated platform credentials p realm name needed r).1.db
      after (err e, w) r v = v
      after (ok principal, w) r v = v

      looked :
          (w : World S) (found : Result AppError (Option Repository))
          → IsValid w.db
          → IsValid
              (elim found as (λ _. Result AppError Decision × World S) [
                | err e ↦ (ok (answered (into_oci_response e)), w)
                | ok r ↦
                    Authorize.authenticated platform credentials
                      (authenticate platform credentials now authorization w)
                      realm
                      name
                      needed
                      r
              ]).1.db
      looked w (err e) v = v
      looked w (ok r) v =
          after (authenticate platform credentials now authorization w) r
            ((authenticate-Keeps now authorization).at w v)
