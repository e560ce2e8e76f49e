-- ===== src/Server/Database/Tables/Only.antt =====
-- Updates of the one row that a unique index lets be.
use jcr.Prelude.{
  ◌≤◌, ◌≡◌, refl, sym, ap, inl, inr, Bool, true, false, some, List, [], ◌∷◌, arith, Bool-cases,
  ||-eq-false, length, any,
}
use mathlib.Core.Path.{subst}
use jcr.Server.Database.Tables.{find, select, update}

module _ {A : Type 0} where
  -- What holds of no row that satisfies `q` holds of none that satisfies `p`.
  pub any_mono :
      (p q : A → Bool) (rs : List A)
      → ((r : A) → q r ≡ false → p r ≡ false)
      → any q rs ≡ false
      → any p rs ≡ false
  any_mono p q [] k h = refl
  any_mono p q (r ∷ rs) k h =
      let (here, later) = ||-eq-false (q r) (any q rs) h in
      rw (k r here, any_mono p q rs k later) refl

  any_of_select : (p : A → Bool) (rs : List A) → length (select p rs) ≤ 0 → any p rs ≡ false
  unfolding select
  any_of_select p [] h = refl
  any_of_select p (r ∷ rs) h = elim (Bool-cases (p r)) [
    | inl e ↦ absurd (omega (arith, rw (e, select) at h))
    | inr e ↦ rw (e, any_of_select p rs (rw (e, select) at h)) refl
  ]

  absent :
      (p q : A → Bool) (rs : List A) (t : A)
      → p t ≡ true
      → any p rs ≡ false
      → find q rs ≡ some t
      → ⊥
  unfolding find
  absent p q [] t holds h f = cc
  absent p q (r ∷ rs) t holds h f =
      let (here, later) = ||-eq-false (p r) (any p rs) h in
      elim (Bool-cases (q r)) [
        | inl chosen ↦ contrary (found (rw (chosen, find) at f)) here
        | inr passed ↦ absent p q rs t holds later (rw (passed, find) at f)
      ]
    where
      found : some r ≡ some t → r ≡ t
      found e = cc

      contrary : r ≡ t → p r ≡ false → ⊥
      contrary e h = cc

  module _ (p p' s : A → Bool) (f : A → A) (spent : (r : A) → p' (f r) ≡ false)
      (sooner : (r : A) → p r ≡ false → p' r ≡ false) where
    any-update_none : (rs : List A) → any p rs ≡ false → any p' (update s f rs) ≡ false
    unfolding update
    any-update_none [] h = refl
    any-update_none (r ∷ rs) h =
        let (here, later) = ||-eq-false (p r) (any p rs) h in
        elim (Bool-cases (s r)) [
          | inl chosen ↦ rw (chosen, spent r, any-update_none rs later) refl
          | inr passed ↦ rw (passed, sooner r here, any-update_none rs later) refl
        ]

    -- The only row that satisfies `p` is updated, and satisfies `p'` no more.
    pub any-update_only :
        (q : A → Bool) (rs : List A) (t : A)
        → p t ≡ true
        → s t ≡ true
        → find q rs ≡ some t
        → length (select p rs) ≤ 1
        → any p' (update s f rs) ≡ false
    unfolding find select update
    any-update_only q [] t holds hit e u = cc
    any-update_only q (r ∷ rs) t holds hit e u = elim (Bool-cases (q r)) [
      | inl here ↦
          let same = found (rw (here, find) at e) in
          let first : p r ≡ true = subst (λ x. p x ≡ true) (sym same) holds in
          let chosen : s r ≡ true = subst (λ x. s x ≡ true) (sym same) hit in
          let rest = any_of_select p rs (omega (arith, rw (first, select) at u)) in
          rw (chosen, spent r, any-update_none rs rest) refl
      | inr not_here ↦ elim (Bool-cases (p r)) [
        | inl other ↦ absurd (
            absent p q rs t holds (any_of_select p rs (omega (arith, rw (other, select) at u)))
              (rw (not_here, find) at e))
        | inr idle ↦
            let rest =
              any-update_only q rs t holds hit (rw (not_here, find) at e)
                (rw (idle, select) at u) in
            elim (Bool-cases (s r)) [
              | inl chosen ↦ rw (chosen, spent r, rest) refl
              | inr passed ↦ rw (passed, sooner r idle, rest) refl
            ]
      ]
    ]
      where
        found : some r ≡ some t → r ≡ t
        found e = cc

  -- An update that changes no key changes the row that is found.
  pub find-update_within :
      (p q : A → Bool) (f : A → A) (rs : List A) (t : A)
      → ((r : A) → p (f r) ≡ p r)
      → find p rs ≡ some t
      → q t ≡ true
      → find p (update q f rs) ≡ some (f t)
  unfolding find update
  find-update_within p q f [] t same h k = cc
  find-update_within p q f (r ∷ rs) t same h k = elim (Bool-cases (p r)) [
    | inl e ↦
        let here : r ≡ t = chosen (rw (e, find) at h) in
        let changed : q r ≡ true = subst (λ x. q x ≡ true) (sym here) k in
        rw (changed, same r, e) (ap (λ x. some (f x)) here)
    | inr e ↦
        let later = find-update_within p q f rs t same (rw (e, find) at h) k in
        elim (Bool-cases (q r)) [ inl c ↦ rw (c, same r, e) later | inr c ↦ rw (c, e) later ]
  ]
    where
      chosen : some r ≡ some t → r ≡ t
      chosen s = cc

  -- What holds of no row does not hold of the one that is found.
  pub refuted_of_find :
      (p q : A → Bool) (rs : List A) (t : A) → find p rs ≡ some t → any q rs ≡ false → q t ≡ false
  unfolding find
  refuted_of_find p q [] t h k = cc
  refuted_of_find p q (r ∷ rs) t h k =
      let (here, later) = ||-eq-false (q r) (any q rs) k in
      elim (Bool-cases (p r)) [
        | inl e ↦ subst (λ x. q x ≡ false) (chosen (rw (e, find) at h)) here
        | inr e ↦ refuted_of_find p q rs t (rw (e, find) at h) later
      ]
    where
      chosen : some r ≡ some t → r ≡ t
      chosen s = cc
