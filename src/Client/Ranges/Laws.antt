-- ===== src/Client/Ranges/Laws.antt =====
-- registry.rs of the client, parse_range_offset, on the headers of set_upload_headers of the server.
use jcr.Prelude.{
  err-ok, >>=-eq-ok, ℕ, zero, suc, ◌+◌, ◌-◌, ◌/◌, ◌%◌, ◌^◌, ◌<◌, ◌≡◌, refl, sym, ap, ◌∙◌, none,
  some, Option, List, [], ◌∷◌, ◌++◌, reverse, Bytes, codes, arith, ok, Bool-cases, inl, inr, all,
  ltb, ok-injective,
}
use mathlib.Core.List.{reverse-append}
use mathlib.Core.Path.{subst}
use jcr.Text.Splitting.{split_once-append}
use jcr.Text.Decimal.{decimal, digits_onto}
use jcr.Text.Decimal.Laws.{parse_u64-decimal}
use jcr.Manifest.{trim}
use jcr.Manifest.Trim.{trim-same, StartsVisibly}
use jcr.Server.Types.{
  Response, HeaderName, HeaderValue, location, docker_upload_uuid, range, insert_header,
  registry_response, is_header_byte,
}
use jcr.Server.Range.{set_upload_headers, upload_location}
use jcr.Client.Exec.{HttpResponse}
use jcr.Client.Requests.{status_offset}
use jcr.Client.Ranges.{parse_range_offset}

StartsVisibly-append : (s t : Bytes) → StartsVisibly s → StartsVisibly (s ++ t)
StartsVisibly-append [] t v = absurd v
StartsVisibly-append (b ∷ s) t v = v

ends_after :
    (x : ℕ) (rest : Bytes) → StartsVisibly (reverse rest) → StartsVisibly (reverse (x ∷ rest))
ends_after x rest v =
    subst StartsVisibly (sym (reverse-append (x ∷ []) rest))
      (StartsVisibly-append (reverse rest) (x ∷ []) v)

-- what follows a digit ends visibly
abbrev EndsVisibly : Bytes → Type 0
EndsVisibly rest = (n : ℕ) → StartsVisibly (reverse ((b'0' + n % 10) ∷ rest))

digits_onto-ends :
    (fuel n : ℕ) (rest : Bytes)
    → EndsVisibly rest
    → StartsVisibly (reverse (digits_onto fuel n rest))
unfolding digits_onto
digits_onto-ends zero n rest h = h n
digits_onto-ends (suc fuel) n rest h = elim (Bool-cases (ltb n 10)) [
  | inl small ↦ rw small (h n)
  | inr big ↦ rw big (
      digits_onto-ends fuel (n / 10) ((b'0' + n % 10) ∷ rest)
        (λ m. ends_after (b'0' + m % 10) ((b'0' + n % 10) ∷ rest) (h n)))
]

decimal-ends : (n : ℕ) → StartsVisibly (reverse (decimal n))
unfolding decimal
decimal-ends n = digits_onto-ends n n [] (λ m. ground arith)

trim-range : (n : ℕ) → trim (codes "0-" ++ decimal n) ≡ codes "0-" ++ decimal n
trim-range n =
    trim-same (codes "0-" ++ decimal n) refl
      (ends_after b'0' (b'-' ∷ decimal n) (ends_after b'-' (decimal n) (decimal-ends n)))

pub parse_range_offset_lem :
    (offset : ℕ)
    → 0 < offset
    → offset < 2 ^ 64
    → parse_range_offset (codes "0-" ++ decimal (offset - 1)) ≡ ok offset
unfolding parse_range_offset
parse_range_offset_lem offset h k =
    rw
      (
        trim-range (offset - 1),
        split_once-append b'-' (codes "0") (decimal (offset - 1)) refl,
        parse_u64-decimal (offset - 1) (omega arith),
      )
      (ap ok (omega arith))

abbrev location_of : List (HeaderName × Bytes) → Option Bytes
location_of [] = none
location_of ((HeaderName.location, value) ∷ rest) = some value
location_of ((_, value) ∷ rest) = location_of rest

abbrev range_of : List (HeaderName × Bytes) → Option Bytes
range_of [] = none
range_of ((HeaderName.range, value) ∷ rest) = some value
range_of ((_, value) ∷ rest) = range_of rest

abbrev challenge_header : List (HeaderName × Bytes) → Option Bytes
challenge_header [] = none
challenge_header ((HeaderName.www_authenticate, value) ∷ rest) = some value
challenge_header ((_, value) ∷ rest) = challenge_header rest

abbrev as_header : Option Bytes → HeaderValue
as_header none = none
as_header (some value) = some (some value)

-- what the client sees of a response of the server
abbrev pub received : Response → HttpResponse
received r = record {
  status = r.status;
  location = as_header (location_of r.headers);
  range = as_header (range_of r.headers);
  www_authenticate = as_header (challenge_header r.headers);
  json = none;
}

with_header : HeaderName → Bytes → Response → Response
with_header name value r = record r { headers = (name, value) ∷ r.headers }

insert_header_sound :
    (name : HeaderName) (value : Bytes) (r r' : Response)
    → insert_header name value r ≡ ok r'
    → with_header name value r ≡ r'
unfolding insert_header with_header
insert_header_sound name value r r' h = elim (Bool-cases (all is_header_byte value)) [
  | inl good ↦ ok-injective (rw (good, insert_header) at h)
  | inr bad ↦ absurd (err-ok (rw (bad, insert_header) at h))
]

-- The server answers a chunk or a question for the status with its offset in a header, and the client
-- reads the same offset back, also at the start, where there is no header.
pub status_offset-set_upload_headers :
    (uuid_text : ℕ → Bytes) (repository : Bytes) (id offset code : ℕ) (r : Response)
    → offset < 2 ^ 64
    → set_upload_headers uuid_text repository id offset (registry_response code) ≡ ok r
    → (status_offset (received r) ≡ ok offset)
      × ((received r).location ≡ some (some (upload_location uuid_text repository id)))
unfolding set_upload_headers with_header status_offset
status_offset-set_upload_headers uuid_text repository id offset code r k h =
    let (located, e1, h1) =
      >>=-eq-ok
        (insert_header location (upload_location uuid_text repository id) (registry_response code))
        _ h in
    let (named, e2, h2) =
      >>=-eq-ok (insert_header docker_upload_uuid (uuid_text id) located) _ h1 in
    let same1 =
      insert_header_sound location (upload_location uuid_text repository id)
        (registry_response code) located e1 in
    let same2 : with_header docker_upload_uuid (uuid_text id)
          (with_header location (upload_location uuid_text repository id) (registry_response code))
        ≡ named =
      ap (with_header docker_upload_uuid (uuid_text id)) same1
      ∙ insert_header_sound docker_upload_uuid (uuid_text id) located named e2 in
    elim (Bool-cases (ltb 0 offset)) [
      | inl positive ↦
          let same3 =
            ap (with_header range (codes "0-" ++ decimal (offset - 1))) same2
            ∙ insert_header_sound range (codes "0-" ++ decimal (offset - 1)) named r
                (rw positive at h2) in
          (
            subst (λ x. status_offset (received x) ≡ ok offset) same3
                (parse_range_offset_lem offset (ground arith) k),
            subst
                (λ x. (received x).location ≡ some (some (upload_location uuid_text repository id)))
                same3 refl,
          )
      | inr start ↦
          let same3 = same2 ∙ ok-injective (rw start at h2) in
          (
            subst (λ x. status_offset (received x) ≡ ok offset) same3 (ap ok (ground arith)),
            subst
                (λ x. (received x).location ≡ some (some (upload_location uuid_text repository id)))
                same3 refl,
          )
    ]
