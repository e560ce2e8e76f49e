-- ===== src/Server/Database/Tables.antt =====
-- Statements on a table, as a list of rows.
pub mod Keys
pub mod Upsert
pub mod Only
use jcr.Prelude.{
  ℕ, zero, suc, ◌+◌, ◌-◌, ◌*◌, ◌/◌, ◌%◌, ◌^◌, ◌≤◌, ◌<◌, String, ◌≡◌, refl, sym, ap, ◌∙◌, ◌≢◌, ◌↔◌,
  ◌⊎◌, inl, inr, Bool, true, false, not, ◌&&◌, ◌||◌, Option, none, some, List, [], ◌∷◌, ◌++◌, map,
  reverse, arith, ltb, leb, ◌==◌, ==_iff, if◌then◌else◌, Bool-cases, Option-cases, &&-eq-true,
  ||-eq-false, length, all, any, is_empty, length-append, all-append, any-append, Bytes, codes,
  bytes_eq, bytes_eq_refl, eq_of_bytes_eq, bytes_eq_iff, Result, ok, err, ok_or, is_ok, to_option,
  ◌>>=◌, ◌>>◌, >>=-eq-ok, map_err, ok-injective,
}

module _ {ℓ} {A : Type ℓ} where
  -- `SELECT … WHERE` with `fetch_optional`: the first row that fits
  unfoldable pub find : (A → Bool) → List A → Option A
  find p [] = none
  find p (r ∷ rs) = if p r then some r else find p rs

  -- `SELECT EXISTS`
  abbrev pub exists : (A → Bool) → List A → Bool
  exists p rs = any p rs

  -- `SELECT … WHERE` with `fetch_all`
  unfoldable pub select : (A → Bool) → List A → List A
  select p [] = []
  select p (r ∷ rs) = let rest = select p rs in if p r then r ∷ rest else rest

  -- `UPDATE … SET … WHERE`
  unfoldable pub update : (A → Bool) → (A → A) → List A → List A
  update p f [] = []
  update p f (r ∷ rs) = (if p r then f r else r) ∷ update p f rs

  -- `DELETE … WHERE`
  unfoldable pub delete : (A → Bool) → List A → List A
  delete p [] = []
  delete p (r ∷ rs) = let rest = delete p rs in if p r then rest else r ∷ rest

  -- `INSERT`
  abbrev pub insert : A → List A → List A
  insert r rs = rs ++ r ∷ []

  -- `INSERT … ON CONFLICT DO NOTHING`, where `p` tells the rows with the new row's key
  abbrev pub insert_new : (A → Bool) → A → List A → List A
  insert_new p r rs = if exists p rs then rs else insert r rs

  -- `INSERT … ON CONFLICT DO UPDATE`
  abbrev pub upsert : (A → Bool) → A → (A → A) → List A → List A
  upsert p r f rs = if exists p rs then update p f rs else insert r rs

  -- `LIMIT`
  unfoldable pub take : ℕ → List A → List A
  take zero rs = []
  take (suc n) [] = []
  take (suc n) (r ∷ rs) = r ∷ take n rs

  -- `ORDER BY`, stable
  unfoldable pub insert_by : (A → A → Bool) → A → List A → List A
  insert_by le r [] = r ∷ []
  insert_by le r (q ∷ rs) = let rest = insert_by le r rs in if le r q then r ∷ q ∷ rs else q ∷ rest

  unfoldable pub order_by : (A → A → Bool) → List A → List A
  unfolding insert_by
  order_by le [] = []
  order_by le (r ∷ rs) = insert_by le r (order_by le rs)

  -- laws

  pub any_of_find : (p : A → Bool) (rs : List A) (r : A) → find p rs ≡ some r → any p rs ≡ true
  unfolding find
  any_of_find p [] r h = cc
  any_of_find p (q ∷ rs) r h = ground (arith, any_of_find p rs r)

  pub holds_of_find : (p : A → Bool) (rs : List A) (r : A) → find p rs ≡ some r → p r ≡ true
  unfolding find
  holds_of_find p [] r h = cc
  holds_of_find p (q ∷ rs) r h = elim (Bool-cases (p q)) [
    | inl e ↦ rw (← some_inj (rw (e, find) at h)) e
    | inr e ↦ holds_of_find p rs r (rw (e, find) at h)
  ]
    where
      some_inj : some q ≡ some r → q ≡ r
      some_inj k = ground arith

  pub find-none : (p : A → Bool) (rs : List A) → any p rs ≡ false → find p rs ≡ none
  unfolding find
  find-none p [] h = refl
  find-none p (q ∷ rs) h = ground (arith, find-none p rs)

  pub find-some : (p : A → Bool) (rs : List A) → any p rs ≡ true → (r : A) × (find p rs ≡ some r)
  unfolding find
  find-some p [] h = cc
  find-some p (q ∷ rs) h = elim (Bool-cases (p q)) [
    | inl e ↦ (q, rw e)
    | inr e ↦ rw e (find-some p rs (rw e at h))
  ]
