-- ===== src/Tests/Registry.antt =====
-- A registry with one upload, which keeps to what the client relies on.
use jcr.Prelude.{
  false-true, ℕ, ◌+◌, ◌-◌, ◌^◌, ◌<◌, ◌≡◌, inl, inr, sym, ap, ◌∙◌, refl, Bool, true, false, ◌&&◌,
  ◌||◌, none, some, Option, [], ◌∷◌, ◌++◌, Bytes, bytes_eq, eq_of_bytes_eq, codes, length,
  length-append, is_empty, ltb, if◌then◌else◌, arith, Bool-cases, ◌⊎◌, Result, ok,
}
use mathlib.Core.Path.{subst}
use jcr.Text.{split_once}
use jcr.Text.Splitting.{split_once-append}
use jcr.Text.Decimal.{decimal, digits_value}
use jcr.Text.Decimal.Laws.{contains-decimal, digits_value-decimal}
use jcr.Digest.{Digest}
use jcr.Server.Types.{HeaderValue}
use jcr.Client.Exec.{Method, Request, HttpResponse, TransportError, Environment, RegistryClient}
use jcr.Client.Ranges.{last_byte, content_range}
use jcr.Client.Ranges.Laws.{parse_range_offset_lem}
use jcr.Client.Requests.{
  final_range, positioned, acknowledged_offset, status_offset, upload_position,
}
use jcr.Client.Registry.{
  IsFaithful, may_store, IsAt, Appended, ignored, taken, has_status, succeeded, chunk_position,
  status_position,
}

content_range-injective : (a b c d : ℕ) → content_range a b ≡ content_range c d → a ≡ c
unfolding content_range
content_range-injective a b c d h =
    let split =
      sym (split_once-append b'-' (decimal a) (decimal b) (contains-decimal b'-' a refl))
      ∙ (ap (split_once b'-') h
          ∙ split_once-append b'-' (decimal c) (decimal d) (contains-decimal b'-' c refl)) in
    some_inj a c (
      sym (digits_value-decimal a)
      ∙ (ap (digits_value 0) (first (decimal a) (decimal b) (decimal c) (decimal d) split)
          ∙ digits_value-decimal c))
  where
    first : (p q r s : Bytes) → ◌≡◌ {A = Option (Bytes × Bytes)} (some (p, q)) (some (r, s)) → p ≡ r
    first p q r s e = ap (λ o. or_nothing o) e
      where
        or_nothing : Option (Bytes × Bytes) → Bytes
        or_nothing none = []
        or_nothing (some (p, q)) = p

    some_inj : (a c : ℕ) → some a ≡ some c → a ≡ c
    some_inj a c e = ground arith

some_bytes : {a b : Bytes} → some a ≡ some b → a ≡ b
some_bytes h = cc

-- what the upload holds, and the blob that is stored
pub record Remote : Type 0 where
  pub held : Bytes
  pub blob : Option Bytes

abbrev answer : ℕ → Bytes → HeaderValue → HttpResponse
answer status location range = record {
  status = status;
  location = some (some location);
  range = range;
  www_authenticate = none;
  json = none;
}

abbrev upload_range : Bytes → HeaderValue
upload_range held =
    if ltb 0 (length held) then some (some (codes "0-" ++ decimal (length held - 1))) else none

abbrev is_next : Option Bytes → Bytes → Bytes → Bool
is_next none held body = false
is_next (some range) held body =
    bytes_eq range (content_range (length held) (last_byte (length held) (length body)))

abbrev fits : Bytes → Bool
fits held = ltb (length held) (2 ^ 64)

abbrev grown : Remote → Bytes → Remote
grown n body = record n { held = n.held ++ body }

abbrev append_chunk : Bytes → Remote → Bytes → Bool → Result TransportError HttpResponse × Remote
append_chunk url n body true = (ok (answer 202 url (upload_range (n.held ++ body))), grown n body)
append_chunk url n body false = (ok (answer 416 url none), n)

-- It takes what it is sent, and does not look at the digest.
abbrev finish : Bytes → Remote → Bytes → Bool → Result TransportError HttpResponse × Remote
finish url n body true =
    (ok (answer 201 url none), record { held = n.held ++ body; blob = some (n.held ++ body) })
finish url n body false = (ok (answer 416 url none), n)

abbrev tell : Bytes → Remote → Bool → Result TransportError HttpResponse × Remote
tell url n true = (ok (answer 204 url (upload_range n.held)), n)
tell url n false = (ok (answer 404 url none), n)

abbrev look : Bytes → Option Bytes → Result TransportError HttpResponse
look url none = ok (answer 404 url none)
look url (some content) = ok (answer 200 url none)

abbrev respond : Method → Request → Remote → Result TransportError HttpResponse × Remote
respond Method.patch r n =
    append_chunk r.url n r.body (is_next r.content_range n.held r.body && fits (n.held ++ r.body))
respond Method.put r n =
    finish r.url n r.body (is_empty r.body || is_next r.content_range n.held r.body)
respond Method.get r n = tell r.url n (fits n.held)
respond Method.post r n = (ok (answer 202 r.url none), record n { held = [] })
respond Method.head r n = (look r.url n.blob, n)

abbrev pub remote : Environment Remote
remote = record {
  send = λ r n. respond r.method r n;
  save = λ uploads n. (true, n);
  join = λ suffix. some suffix;
  resolve = λ location. some location;
  with_pairs = λ url pairs. url;
  percent_encode = λ text. text;
}

abbrev pub held_by : Bytes → Remote → Bytes
held_by url n = n.held

abbrev pub StoredBy : Digest → Bytes → Remote → Type 0
StoredBy digest content n = n.blob ≡ some content

module _ (url token : Bytes) where
  patched_by :
      (offset : ℕ) (body : Bytes) (n : Remote)
      → 0 < length body
      → (b : Bool)
      → b
        ≡ is_next (some (content_range offset (last_byte offset (length body)))) n.held body
          && fits (n.held ++ body)
      → Appended n.held
          (append_chunk url n body b).1.held
          body
          offset
          (has_status 202 (append_chunk url n body b).0)
  patched_by offset body n p false e = ignored refl refl
  patched_by offset body n p true e =
      taken (λ _. sym (content_range-injective _ _ _ _ (eq_of_bytes_eq _ _ (next (sym e))))) refl
    where
      next :
          is_next (some (content_range offset (last_byte offset (length body)))) n.held body
              && fits (n.held ++ body)
            ≡ true
          → bytes_eq
              (content_range offset (last_byte offset (length body)))
              (content_range (length n.held) (last_byte (length n.held) (length body)))
            ≡ true
      next h = ground arith

  located :
      (offset : ℕ) (n body : Bytes)
      → 0 < length body
      → length n ≡ offset
      → fits (n ++ body) ≡ true
      → IsAt remote.resolve url (offset + length body) (
          positioned
            (answer 202 url (upload_range (n ++ body)))
            (acknowledged_offset (answer 202 url (upload_range (n ++ body)))))
  unfolding acknowledged_offset upload_position
  located offset n body p same short =
      let grown : length (n ++ body) ≡ offset + length body =
        length-append n body ∙ ap (λ k. k + length body) same in
      let some_range : ltb 0 (length (n ++ body)) ≡ true = ground (arith, grown) in
      let bound : length (n ++ body) < 2 ^ 64 = ground arith in
      record {
        location = url;
        resolved = refl;
        position =
            rw
              (
                some_range,
                parse_range_offset_lem (length (n ++ body)) (ground (arith, grown)) bound,
              )
              (ap (λ k. ok (record { location = url; offset = k })) grown);
      }

  acknowledged_by :
      (offset : ℕ) (body : Bytes) (n : Remote)
      → 0 < length body
      → (b : Bool)
      → b
        ≡ is_next (some (content_range offset (last_byte offset (length body)))) n.held body
          && fits (n.held ++ body)
      → has_status 202 (append_chunk url n body b).0 ≡ true
      → IsAt remote.resolve url
          (offset + length body)
          (chunk_position (append_chunk url n body b).0)
  acknowledged_by offset body n p false e h = absurd (false-true h)
  acknowledged_by offset body n p true e h =
      located offset n.held body p
        (sym (content_range-injective _ _ _ _ (eq_of_bytes_eq _ _ (parts (sym e)).0)))
        (parts (sym e)).1
    where
      parts :
          is_next (some (content_range offset (last_byte offset (length body)))) n.held body
              && fits (n.held ++ body)
            ≡ true
          → (bytes_eq
                (content_range offset (last_byte offset (length body)))
                (content_range (length n.held) (last_byte (length n.held) (length body)))
              ≡ true)
            × (fits (n.held ++ body) ≡ true)
      parts h = ground arith

  told :
      (n : Remote) (b : Bool)
      → b ≡ fits n.held
      → succeeded (tell url n b).0 ≡ true
      → IsAt remote.resolve url (length n.held) (status_position (tell url n b).0)
  unfolding status_offset upload_position
  told n false e h = absurd (false-true h)
  told n true e h = elim (Bool-cases (ltb 0 (length n.held))) [
    | inl filled ↦ record {
      location = url;
      resolved = refl;
      position =
          rw (filled, parse_range_offset_lem (length n.held) (ground arith) (below (sym e))) refl;
    }
    | inr empty ↦ record {
      location = url;
      resolved = refl;
      position = rw empty (ap (λ k. ok (record { location = url; offset = k })) (ground arith));
    }
  ]
    where
      below : fits n.held ≡ true → length n.held < 2 ^ 64
      below h = ground arith

  told_kept : (n : Remote) (b : Bool) → (tell url n b).1 ≡ n
  told_kept n true = refl
  told_kept n false = refl

  finished_by :
      (offset : ℕ) (body : Bytes) (n : Remote) (b : Bool)
      → b ≡ is_empty body || is_next (final_range offset body) n.held body
      → Appended n.held
          (finish url n body b).1.held
          body
          offset
          (has_status 201 (finish url n body b).0)
  finished_by offset body n false e = ignored refl refl
  finished_by offset [] n true e = taken (λ h. absurd (omega arith)) refl
  finished_by offset (x ∷ body) n true e =
      taken (λ _. sym (content_range-injective _ _ _ _ (eq_of_bytes_eq _ _ (sym e)))) refl

  stored_by :
      (body : Bytes) (n : Remote) (b : Bool)
      → has_status 201 (finish url n body b).0 ≡ true
      → (finish url n body b).1.blob ≡ some (finish url n body b).1.held
  stored_by body n true h = refl
  stored_by body n false h = absurd (false-true h)

  replaced_by :
      (offset : ℕ) (body content : Bytes) (n : Remote) (b : Bool)
      → b ≡ is_empty body || is_next (final_range offset body) n.held body
      → (finish url n body b).1.blob ≡ some content
      → (n.blob ≡ some content)
        ⊎ ((content ≡ (finish url n body b).1.held)
            × ((finish url n body b).1.held ≡ n.held ++ body)
            × (0 < length body → length n.held ≡ offset))
  replaced_by offset body content n false e h = inl h
  replaced_by offset [] content n true e h =
      inr (sym (some_bytes h), refl, λ k. absurd (omega arith))
  replaced_by offset (x ∷ body) content n true e h = inr (
    sym (some_bytes h),
    refl,
    λ _. sym (content_range-injective _ _ _ _ (eq_of_bytes_eq _ _ (sym e))),
  )

unstored_by :
    (r : Request) (m : Method) (content : Bytes) (n : Remote)
    → may_store m ≡ false
    → (respond m r n).1.blob ≡ some content
    → n.blob ≡ some content
unstored_by r Method.get content n h k =
    subst (λ t. t.blob ≡ some content) (told_kept r.url [] n (fits n.held)) k
unstored_by r Method.head content n h k = k
unstored_by r Method.patch content n h k = appended _ k
  where
    appended :
        (b : Bool) → (append_chunk r.url n r.body b).1.blob ≡ some content → n.blob ≡ some content
    appended true k = k
    appended false k = k
unstored_by r Method.post content n h k = k
unstored_by r Method.put content n h k = cc

found_by :
    (url : Bytes) (o : Option Bytes)
    → succeeded (look url o) ≡ true
    → (content : Bytes) × (o ≡ some content)
found_by url none h = absurd (false-true h)
found_by url (some content) h = (content, refl)

pub remote-IsFaithful : (client : RegistryClient) → IsFaithful remote client held_by StoredBy
unfolding upload_position
remote-IsFaithful client = record {
  is_upload = λ url. true;
  patched = λ url token offset body n p. patched_by url token offset body n p _ refl;
  acknowledged = λ url token offset body n p h. acknowledged_by url token offset body n p _ refl h;
  asked = λ url token n. ap (λ t. t.held) (told_kept url token n (fits n.held));
  answered = λ url token n one h. told url token n _ refl h;
  started = λ target token n at h.
      (target, refl, record { location = target; resolved = refl; position = refl }, refl);
  completed = λ url token offset digest body n. finished_by url token offset body n _ refl;
  committed = λ url token offset digest body n h. stored_by url token body n _ h;
  headed = λ url target token n. refl;
  found = λ digest target token n j h. found_by target n.blob h;
  authenticated = λ url target n. ap (λ t. t.held) (told_kept target target n (fits n.held));
  saved = λ url uploads n. refl;
  kept = λ digest content uploads n h. h;
  unstored = λ r digest content n h k. unstored_by r r.method content n h k;
  opened = λ target token digest content n at k. k;
  replaced = λ url token offset digest body content n k.
      replaced_by url token offset body content n _ refl k;
  unsaved = λ digest content uploads n k. k;
}

pub remote-is_upload :
    (client : RegistryClient) (url : Bytes) → (remote-IsFaithful client).is_upload url ≡ true
unfolding remote-IsFaithful
remote-is_upload client url = refl
