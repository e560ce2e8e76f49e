-- ===== src/Server/Database/Tables/Keys.antt =====
-- Rows that a key tells apart: what a statement on one key does to a predicate on all rows.
use jcr.Prelude.{
  ℕ, ◌≡◌, refl, ap, ◌∙◌, inl, inr, Bool, true, false, Option, none, some, List, [], ◌∷◌, ◌++◌,
  arith, ◌==◌, Bool-cases, ||-eq-false, any, any-append, All,
}
use jcr.Server.Database.Tables.{find, update}

module _ {ℓ} {A : Type ℓ} where
  -- a primary key over numbers
  abbrev pub Unique : (A → ℕ) → List A → Type 0
  Unique key [] = Unit
  Unique key (r ∷ rs) = (any (λ q. key q == key r) rs ≡ false) × Unique key rs

  pub any-update :
      (p q : A → Bool) (f : A → A) (rs : List A)
      → ((r : A) → q (f r) ≡ q r)
      → any q (update p f rs) ≡ any q rs
  unfolding update
  any-update p q f [] h = refl
  any-update p q f (r ∷ rs) h = ground (arith, h r, any-update p q f rs h)

  pub Unique-update :
      (key : A → ℕ) (p : A → Bool) (f : A → A) (rs : List A)
      → ((r : A) → key (f r) ≡ key r)
      → Unique key rs
      → Unique key (update p f rs)
  unfolding update
  Unique-update key p f [] h u = tt
  Unique-update key p f (r ∷ rs) h (fresh, u) = elim (Bool-cases (p r)) [
    | inl e ↦
        rw (e, h r)
          (
            any-update p (λ q. key q == key r) f rs (λ q. rw (h q) refl) ∙ fresh,
            Unique-update key p f rs h u,
          )
    | inr e ↦ rw e (
      any-update p (λ q. key q == key r) f rs (λ q. rw (h q) refl) ∙ fresh,
      Unique-update key p f rs h u,
    )
  ]

  pub Unique-concat :
      (key : A → ℕ) (rs : List A) (r : A)
      → Unique key rs
      → any (λ q. key q == key r) rs ≡ false
      → Unique key (rs ++ r ∷ [])
  Unique-concat key [] r u h = (refl, tt)
  Unique-concat key (q ∷ rs) r (fresh, u) h =
      let appended = any-append (λ x. key x == key q) rs (r ∷ []) in
      (ground arith, Unique-concat key rs r u (ground arith))

  absent :
      (key : A → ℕ) (p : A → Bool) (k : ℕ) (rs : List A) (r : A)
      → any (λ q. key q == k) rs ≡ false
      → find p rs ≡ some r
      → key r == k ≡ false
  unfolding find
  absent key p k [] r h e = cc
  absent key p k (q ∷ rs) r h e = elim (Bool-cases (p q)) [
    | inl t ↦ found (rw (t, find) at e)
    | inr t ↦ absent key p k rs r (||-eq-false _ _ h).1 (rw (t, find) at e)
  ]
    where
      found : some q ≡ some r → key r == k ≡ false
      found e' = let same : q ≡ r = ground arith in rw (← same) (||-eq-false _ _ h).0

  module _ {κ} (P : A → Type κ) where
    pub All-find : (p : A → Bool) (rs : List A) (r : A) → All P rs → find p rs ≡ some r → P r
    unfolding find
    All-find p [] r h e = absurd (none_found e)
      where
        none_found : ◌≡◌ {A = Option A} none (some r) → ⊥
        none_found e' = cc
    All-find p (q ∷ rs) r (k, h) e = elim (Bool-cases (p q)) [
      | inl t ↦ found (rw (t, find) at e)
      | inr t ↦ All-find p rs r h (rw (t, find) at e)
    ]
      where
        found : some q ≡ some r → P r
        found e' = let same : q ≡ r = ground arith in rw (← same) k

  module _ {κ μ} (P : A → Type κ) (Q : A → Type μ) where
    pub All-map : (rs : List A) → ((r : A) → P r → Q r) → All P rs → All Q rs
    All-map [] k h = tt
    All-map (r ∷ rs) k (p, h) = (k r p, All-map rs k h)

    pub All-update :
        (p : A → Bool) (f : A → A) (rs : List A)
        → ((r : A) → P r → p r ≡ true → Q (f r))
        → ((r : A) → P r → p r ≡ false → Q r)
        → All P rs
        → All Q (update p f rs)
    unfolding update
    All-update p f [] k l h = tt
    All-update p f (r ∷ rs) k l (h, t) = elim (Bool-cases (p r)) [
      | inl e ↦ rw e (k r h e, All-update p f rs k l t)
      | inr e ↦ rw e (l r h e, All-update p f rs k l t)
    ]

    other_keys :
        (key : A → ℕ) (k : ℕ) (f : A → A) (rs : List A)
        → any (λ q. key q == k) rs ≡ false
        → ((r : A) → P r → key r == k ≡ false → Q r)
        → All P rs
        → All Q (update (λ q. key q == k) f rs)
    unfolding update
    other_keys key k f [] h l a = tt
    other_keys key k f (r ∷ rs) h l (p, a) =
        let (e, h') = ||-eq-false (key r == k) (any (λ q. key q == k) rs) h in
        rw e (l r p e, other_keys key k f rs h' l a)

    -- An update of the one row with the key `k`, which `p` has found.
    pub All-update_key :
        (key : A → ℕ) (k : ℕ) (p : A → Bool) (f : A → A) (rs : List A) (r : A)
        → Unique key rs
        → find p rs ≡ some r
        → key r ≡ k
        → Q (f r)
        → ((q : A) → P q → key q == k ≡ false → Q q)
        → All P rs
        → All Q (update (λ q. key q == k) f rs)
    unfolding find update
    All-update_key key k p f [] r u e same c l a = tt
    All-update_key key k p f (q ∷ rs) r (fresh, u) e same c l (h, a) = elim (Bool-cases (p q)) [
      | inl t ↦ at_head (rw (t, find) at e)
      | inr t ↦
          let later : find p rs ≡ some r = rw (t, find) at e in
          let differs = absent key p (key q) rs r fresh later in
          let other : key q == k ≡ false = ground arith in
          rw other (l q h other, All-update_key key k p f rs r u later same c l a)
    ]
      where
        at_head : some q ≡ some r → All Q (update (λ x. key x == k) f (q ∷ rs))
        at_head e' =
            let is_r : q ≡ r = ground arith in
            let e'' : key q == k ≡ true = ground (arith, ap key is_r) in
            let k_eq : key q ≡ k = ap key is_r ∙ same in
            let fresh' : any (λ x. key x == k) rs ≡ false = rw (← k_eq) fresh in
            rw e'' (rw is_r c, other_keys key k f rs fresh' l a)

  pub update-update :
      (p : A → Bool) (f g : A → A) (rs : List A)
      → ((r : A) → p (f r) ≡ p r)
      → update p g (update p f rs) ≡ update p (λ r. g (f r)) rs
  unfolding update
  update-update p f g [] h = refl
  update-update p f g (r ∷ rs) h = elim (Bool-cases (p r)) [
    | inl e ↦ rw (e, h r, e, update-update p f g rs h)
    | inr e ↦ rw (e, e, update-update p f g rs h)
  ]
