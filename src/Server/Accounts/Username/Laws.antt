-- ===== src/Server/Accounts/Username/Laws.antt =====
-- db.rs, normalize_username, and the check on names in the schema.
use jcr.Prelude.{
  err-ok, ℕ, suc, ◌≤◌, ◌<◌, ◌≡◌, refl, sym, ◌∙◌, ◌↔◌, inl, inr, Bool, true, false, not, ◌||◌,
  Option, none, some, [], ◌∷◌, arith, ltb, Bool-cases, ||-eq-false, length, is_empty, Bytes, ok,
  ok-injective,
}
use jcr.Manifest.{trim}
use jcr.Server.Accounts.Username
use jcr.Server.Accounts.Username.{
  to_ascii_lowercase, scan_username, check_username, normalize_username, username_format,
  is_alphanumeric, is_separator,
}

abbrev ends_plain : Option Bool → Bool
ends_plain none = false
ends_plain (some true) = false
ends_plain (some false) = true

-- Behind the first byte the loop and the pattern of the schema agree.
scan_username-format :
    (index : ℕ) (previous : Bool) (s : Bytes)
    → ends_plain (scan_username (suc index) previous s) ≡ username_format (not previous) s
unfolding scan_username username_format
scan_username-format index true [] = refl
scan_username-format index false [] = refl
scan_username-format index true (b ∷ s) = ground (arith, scan_username-format (suc index) false s)
scan_username-format index false (b ∷ s) =
    ground
      (arith, scan_username-format (suc index) false s, scan_username-format (suc index) true s)

scan_username_whole :
    (s : Bytes)
    → is_empty s ≡ false
    → ends_plain (scan_username 0 false s) ≡ username_format false s
unfolding scan_username username_format
scan_username_whole [] h = cc
scan_username_whole (b ∷ s) h = ground (arith, scan_username-format 0 false s)

ended_sound :
    (s u : Bytes) (o : Option Bool) → Username.ended s o ≡ ok u → (u ≡ s) × (ends_plain o ≡ true)
ended_sound s u none h = absurd (refused h)
  where
    refused : Username.ended s none ≡ ok u → ⊥
    refused h = cc
ended_sound s u (some true) h = absurd (refused h)
  where
    refused : Username.ended s (some true) ≡ ok u → ⊥
    refused h = cc
ended_sound s u (some false) h = (sym (ok-injective h), refl)

ended_complete : (s : Bytes) (o : Option Bool) → ends_plain o ≡ true → Username.ended s o ≡ ok s
ended_complete s none h = cc
ended_complete s (some true) h = cc
ended_complete s (some false) h = refl

nonempty : (s : Bytes) → is_empty s ≡ false → 0 < length s
nonempty [] h = cc
nonempty (b ∷ s) h = omega arith

filled : (s : Bytes) → 0 < length s → is_empty s ≡ false
filled [] h = absurd (omega arith)
filled (b ∷ s) h = refl

check_username_sound :
    (s u : Bytes)
    → check_username s ≡ ok u
    → (u ≡ s) × (0 < length s) × (length s ≤ 64) × (username_format false s ≡ true)
unfolding check_username
check_username_sound s u h = elim (Bool-cases (is_empty s || ltb 64 (length s))) [
  | inl refused ↦ absurd (err-ok (rw (refused, check_username) at h))
  | inr fits ↦
      let (full, short) = ||-eq-false (is_empty s) (ltb 64 (length s)) fits in
      let (same, plain) =
        ended_sound s u (scan_username 0 false s) (rw (fits, check_username) at h) in
      (same, nonempty s full, ground arith, sym (scan_username_whole s full) ∙ plain)
]

check_username_complete :
    (s : Bytes)
    → 0 < length s
    → length s ≤ 64
    → username_format false s ≡ true
    → check_username s ≡ ok s
unfolding check_username
check_username_complete s full short format =
    let fits : is_empty s || ltb 64 (length s) ≡ false = ground (arith, filled s full) in
    rw fits
      (ended_complete s (scan_username 0 false s) (scan_username_whole s (filled s full) ∙ format))

-- An accepted name is the trimmed text in lower case; a text is accepted exactly if that has 1 to 64
-- bytes and the form that the schema demands of user names and of namespaces.
pub normalize_username_iff :
    (value username : Bytes)
    → (normalize_username value ≡ ok username) ↔ (
        (username ≡ to_ascii_lowercase (trim value))
        × (0 < length username)
        × (length username ≤ 64)
        × (username_format false username ≡ true))
unfolding normalize_username
normalize_username_iff value username = (
  sound,
  λ (same, full, short, format). rw (← same) (check_username_complete username full short format),
)
  where
    sound :
        check_username (to_ascii_lowercase (trim value)) ≡ ok username
        → (username ≡ to_ascii_lowercase (trim value))
          × (0 < length username)
          × (length username ≤ 64)
          × (username_format false username ≡ true)
    sound h =
        let (same, full, short, format) =
          check_username_sound (to_ascii_lowercase (trim value)) username h in
        rw same (refl, full, short, format)
