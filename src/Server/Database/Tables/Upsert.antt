-- ===== src/Server/Database/Tables/Upsert.antt =====
-- Lookups behind `INSERT … ON CONFLICT`.
use jcr.Prelude.{
  ◌≡◌, refl, ◌∙◌, inl, inr, Bool, true, false, ◌||◌, Option, none, some, List, [], ◌∷◌, arith,
  Bool-cases, Option-cases, any, any-append,
}
use jcr.Server.Database.Tables.{find, update, insert, insert_new, upsert, find-some}

or_false : (b : Bool) → b || false ≡ b
or_false b = ground arith

or_true : (b : Bool) → b || true ≡ true
or_true b = ground arith

module _ {ℓ} {A : Type ℓ} where
  abbrev pub upserted : A → (A → A) → Option A → A
  upserted r f none = r
  upserted r f (some q) = f q

  pub find-update :
      (p : A → Bool) (f : A → A) (rs : List A) (q : A)
      → ((a : A) → p (f a) ≡ p a)
      → find p rs ≡ some q
      → find p (update p f rs) ≡ some (f q)
  unfolding find update
  find-update p f [] q k h = cc
  find-update p f (r ∷ rs) q k h = ground (arith, k r, find-update p f rs q k)

  pub find-insert :
      (p : A → Bool) (r : A) (rs : List A)
      → p r ≡ true
      → any p rs ≡ false
      → find p (insert r rs) ≡ some r
  unfolding find
  find-insert p r [] k h = rw k
  find-insert p r (q ∷ rs) k h = ground (arith, find-insert p r rs k)

  any-find : (p : A → Bool) (rs : List A) (q : A) → find p rs ≡ some q → any p rs ≡ true
  unfolding find
  any-find p [] q h = cc
  any-find p (r ∷ rs) q h = ground (arith, any-find p rs q)

  pub none-find : (p : A → Bool) (rs : List A) → find p rs ≡ none → any p rs ≡ false
  unfolding find
  none-find p [] h = refl
  none-find p (r ∷ rs) h = ground (arith, none-find p rs)

  pub find-upsert :
      (p : A → Bool) (r : A) (f : A → A) (rs : List A)
      → p r ≡ true
      → ((a : A) → p (f a) ≡ p a)
      → find p (upsert p r f rs) ≡ some (upserted r f (find p rs))
  find-upsert p r f rs k g = elim (Option-cases (find p rs)) [
    | inl e ↦ rw (e, none-find p rs e) (find-insert p r rs k (none-find p rs e))
    | inr (q, e) ↦ rw (e, any-find p rs q e) (find-update p f rs q g e)
  ]

  pub any-insert_new :
      (p : A → Bool) (r : A) (rs : List A) → p r ≡ true → any p (insert_new p r rs) ≡ true
  any-insert_new p r rs k = elim (Bool-cases (any p rs)) [
    | inl e ↦ rw e e
    | inr e ↦ rw (e, any-append p rs (r ∷ []), k) (or_true (any p rs))
  ]

  -- Rows that the statement does not touch are found as before.
  find-update_other :
      (p q : A → Bool) (f : A → A) (rs : List A)
      → ((a : A) → q a ≡ true → (p a ≡ false) × (p (f a) ≡ false))
      → find p (update q f rs) ≡ find p rs
  unfolding find update
  find-update_other p q f [] k = refl
  find-update_other p q f (r ∷ rs) k = elim (Bool-cases (q r)) [
    | inl e ↦ let (before, after) = k r e in rw (e, after, before) (find-update_other p q f rs k)
    | inr e ↦ rw (e, find-update_other p q f rs k)
  ]

  find-insert_other :
      (p : A → Bool) (r : A) (rs : List A) → p r ≡ false → find p (insert r rs) ≡ find p rs
  unfolding find
  find-insert_other p r [] k = rw k
  find-insert_other p r (q ∷ rs) k = rw (find-insert_other p r rs k)

  pub find-upsert_other :
      (p q : A → Bool) (r : A) (f : A → A) (rs : List A)
      → p r ≡ false
      → ((a : A) → q a ≡ true → (p a ≡ false) × (p (f a) ≡ false))
      → find p (upsert q r f rs) ≡ find p rs
  find-upsert_other p q r f rs k g = elim (Bool-cases (any q rs)) [
    | inl e ↦ rw e (find-update_other p q f rs g)
    | inr e ↦ rw e (find-insert_other p r rs k)
  ]

  any-update :
      (p q : A → Bool) (f : A → A) (rs : List A)
      → ((a : A) → q a ≡ true → p (f a) ≡ true)
      → any q rs ≡ true
      → any p (update q f rs) ≡ true
  unfolding update
  any-update p q f [] k h = h
  any-update p q f (r ∷ rs) k h = elim (Bool-cases (q r)) [
    | inl e ↦ rw (e, k r e) refl
    | inr e ↦ rw (e, any-update p q f rs k (rw e at h)) (or_true (p r))
  ]

  -- Some row satisfies what the new row and each changed one satisfy.
  pub any-upsert :
      (p q : A → Bool) (r : A) (f : A → A) (rs : List A)
      → p r ≡ true
      → ((a : A) → q a ≡ true → p (f a) ≡ true)
      → any p (upsert q r f rs) ≡ true
  any-upsert p q r f rs h k = elim (Bool-cases (any q rs)) [
    | inl e ↦ rw e (any-update p q f rs k e)
    | inr e ↦ rw (e, any-append p rs (r ∷ []), h) (or_true (any p rs))
  ]

  pub find-insert_new :
      (p : A → Bool) (r : A) (rs : List A)
      → p r ≡ true
      → (q : A) × (find p (insert_new p r rs) ≡ some q)
  find-insert_new p r rs h = elim (Bool-cases (any p rs)) [
    | inl e ↦ rw e (find-some p rs e)
    | inr e ↦ rw e (r, find-insert p r rs h e)
  ]

  -- No row satisfies what every row of the kind loses.
  pub none-update :
      (p : A → Bool) (f : A → A) (rs : List A)
      → ((a : A) → p (f a) ≡ false)
      → any p (update p f rs) ≡ false
  unfolding update
  none-update p f [] k = refl
  none-update p f (r ∷ rs) k = elim (Bool-cases (p r)) [
    | inl e ↦ rw (e, k r) (none-update p f rs k)
    | inr e ↦ rw (e, none-update p f rs k) (or_false (p r) ∙ e)
  ]
