-- ===== src/Client/Login/Laws.antt =====
-- registry.rs, challenge_field and discover_challenge, on the header of auth.rs, challenge_response.

use jcr.Prelude.{
  false-true, ℕ, ◌≤◌, ◌≡◌, refl, sym, ap, ◌∙◌, true, false, none, some, Option, [], ◌∷◌, ◌++◌,
  Bytes, codes, length, length-append, arith, any-append, ◌==◌, ok, Bool-cases, inl, inr,
}
use mathlib.Core.List.{append_assoc}
use mathlib.Core.Path.{subst}
use jcr.Text.{contains, split_once, split_once_at, strip_prefix, starts_with}
use jcr.Text.Splitting.{split_once-append}
use jcr.Scope
use jcr.Scope.{RepositoryScope}
use jcr.Server.Authorize.{challenge_response}
use jcr.Client.Ranges.Laws.{received}
use jcr.Client.Login.Discovery.{challenge_field, challenge_in, challenge_of}

-- A text that holds `q` starts no text whose beginning is as long and free of it.
strip_prefix-free :
    (q : ℕ) (p s rest : Bytes)
    → contains q p ≡ true
    → contains q s ≡ false
    → length p ≤ length s
    → strip_prefix p (s ++ rest) ≡ none
unfolding strip_prefix
strip_prefix-free q [] s rest h k l = absurd (false-true h)
strip_prefix-free q (a ∷ p) [] rest h k l = absurd (omega (arith, l))
strip_prefix-free q (a ∷ p) (b ∷ s) rest h k l = elim (Bool-cases (a == b)) [
  | inl same ↦ rw same (strip_prefix-free q p s rest (grind arith) (grind arith) (omega (arith, l)))
  | inr other ↦ rw other refl
]

later :
    (p : Bytes) (b : ℕ) (s a r : Bytes)
    → strip_prefix p (b ∷ s) ≡ none
    → split_once_at p s ≡ some (a, r)
    → split_once_at p (b ∷ s) ≡ some (b ∷ a, r)
unfolding split_once_at
later p b s a r none_here found = rw (none_here, found, split_once_at) refl

-- what is skipped before a text that is no part of it
split_once_at-skip :
    (q : ℕ) (p before between rest a r : Bytes)
    → contains q p ≡ true
    → contains q (before ++ between) ≡ false
    → length p ≤ length between
    → split_once_at p (between ++ rest) ≡ some (a, r)
    → split_once_at p (before ++ (between ++ rest)) ≡ some (before ++ a, r)
unfolding split_once_at
split_once_at-skip q p [] between rest a r h k l e = e
split_once_at-skip q p (b ∷ before) between rest a r h k l e =
    let other =
      strip_prefix-free q p (b ∷ (before ++ between)) rest h k
        (omega (arith, l, length-append {0} before between)) in
    let no_match =
      subst (λ x. strip_prefix p (b ∷ x) ≡ none) (append_assoc before between rest) other in
    later p b (before ++ (between ++ rest)) (before ++ a) r no_match
      (split_once_at-skip q p before between rest a r h (grind arith) l e)

abbrev path : Bytes
path = codes "auth/token"

abbrev fields : Bytes → Bytes
fields scoped = codes "\",service=\"jcr\"" ++ scoped

-- the header, up to the order of its parts
abbrev challenge : Bytes → Bytes → Bytes
challenge address scoped = codes "Bearer realm=\"" ++ (address ++ (path ++ fields scoped))

challenge-realm :
    (address scoped : Bytes)
    → contains b'"' address ≡ false
    → challenge_field (challenge address scoped) (codes "realm") ≡ some (address ++ path)
unfolding challenge_field split_once_at strip_prefix
challenge-realm address scoped plain =
    rw
      (
        ← append_assoc address path (fields scoped),
        split_once-append b'"' (address ++ path) (codes ",service=\"jcr\"" ++ scoped)
            (rw (any-append (λ b. b == b'"') address path, plain) refl),
      )
      refl

challenge-service :
    (address scoped : Bytes)
    → contains b'"' address ≡ false
    → challenge_field (challenge address scoped) (codes "service") ≡ some (codes "jcr")
unfolding challenge_field split_once_at strip_prefix split_once
challenge-service address scoped plain =
    let clear : contains b'"' (address ++ path) ≡ false =
      rw (any-append (λ b. b == b'"') address path, plain) refl in
    let found =
      split_once_at-skip b'"' (codes "service=\"") address path (fields scoped)
        (path ++ codes "\",") (codes "jcr\"" ++ scoped) refl clear (omega arith) refl in
    rw (found, challenge_field) refl

challenge_in-challenge :
    (url : Bytes → Option Bytes) (address realm scoped : Bytes)
    → contains b'"' address ≡ false
    → url (address ++ path) ≡ some realm
    → challenge_in url (challenge address scoped)
      ≡ ok (record { realm = realm; service = codes "jcr" })
unfolding challenge_in starts_with strip_prefix
challenge_in-challenge url address realm scoped plain parsed =
    rw (challenge-realm address scoped plain, challenge-service address scoped plain, parsed) refl

-- The client reads back the realm and the service of the challenge that the server answers, with or
-- without a scope, where the realm is `auth/token` below an address that holds no quote.
pub challenge_of-challenge_response :
    (url : Bytes → Option Bytes) (address realm : Bytes) (scope : Option RepositoryScope)
    → contains b'"' address ≡ false
    → url (address ++ codes "auth/token") ≡ some realm
    → challenge_of url (ok (received (challenge_response (address ++ codes "auth/token") scope)))
      ≡ ok (record { realm = realm; service = codes "jcr" })
unfolding challenge_of challenge_response challenge_in challenge_field
challenge_of-challenge_response url address realm scope plain parsed =
    let scoped : Bytes = elim scope [
      | none ↦ []
      | some s ↦ codes ",scope=\"" ++ (Scope.to_string s ++ codes "\"")
    ] in
    let parts : challenge address scoped
        ≡ (codes "Bearer realm=\"" ++ ((address ++ path) ++ codes "\",service=\"jcr\"")) ++ scoped =
      ap (λ x. codes "Bearer realm=\"" ++ x)
        (sym (append_assoc address path (fields scoped))
          ∙ sym (append_assoc (address ++ path) (codes "\",service=\"jcr\"") scoped)) in
    subst (λ header. challenge_in url header ≡ ok (record { realm = realm; service = codes "jcr" }))
      parts (challenge_in-challenge url address realm scoped plain parsed)
