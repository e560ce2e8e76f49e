-- ===== src/Server/Session/Parts.antt =====
-- What holds of the parts of a session: numbered from 1, and of one size but for a shorter last one.
use jcr.Prelude.{
  ℕ, ◌+◌, ◌≤◌, ◌<◌, ◌≡◌, refl, sym, ◌∙◌, ◌⊎◌, inl, inr, Option, none, some, List, [], ◌∷◌, ◌++◌,
  arith, ltb, leb, Bool-cases, Option-cases, length,
}
use jcr.Server.Database.Rows.{UploadPart}
use jcr.Server.Database.Tables.{order_by, insert_by}
use jcr.Server.Session.{greatest, size_of}

-- The numbers are `first`, `first` + 1 and so on.
abbrev pub Numbered : ℕ → List UploadPart → Type 0
Numbered first [] = Unit
Numbered first (p ∷ ps) = (p.part_number ≡ first) × Numbered (first + 1) ps

abbrev pub total : List UploadPart → ℕ
total [] = 0
total (p ∷ ps) = p.size + total ps

-- Every part has the uniform size, the last may be shorter, and none is empty.
abbrev pub Uniform : ℕ → List UploadPart → Type 0
Uniform s [] = Unit
Uniform s (p ∷ []) = (0 < p.size) × (p.size ≤ s)
Uniform s (p ∷ q ∷ ps) = (p.size ≡ s) × Uniform s (q ∷ ps)

pub total-concat :
    (ps : List UploadPart) (p : UploadPart) → total (ps ++ p ∷ []) ≡ total ps + p.size
total-concat [] p = omega arith
total-concat (q ∷ ps) p = omega (arith, total-concat ps p)

pub Numbered-concat :
    (first : ℕ) (ps : List UploadPart) (p : UploadPart)
    → Numbered first ps
    → p.part_number ≡ first + length ps
    → Numbered first (ps ++ p ∷ [])
Numbered-concat first [] p h e = (omega arith, tt)
Numbered-concat first (q ∷ ps) p (e', h) e = (e', Numbered-concat (first + 1) ps p h (omega arith))

-- The part with the greatest number is the last one.
abbrev pub last : List UploadPart → Option UploadPart
last [] = none
last (p ∷ []) = some p
last (p ∷ q ∷ ps) = last (q ∷ ps)

greatest-bound :
    (first : ℕ) (ps : List UploadPart) (q : UploadPart)
    → Numbered first ps
    → greatest ps ≡ some q
    → first ≤ q.part_number
unfolding greatest
greatest-bound first [] q h e = cc
greatest-bound first (p ∷ ps) q (n, h) e = elim (Option-cases (greatest ps)) [
  | inl none_left ↦ ground arith
  | inr (r, found) ↦ ground (arith, greatest-bound (first + 1) ps r h found)
]

greatest-cons :
    (first : ℕ) (p : UploadPart) (ps : List UploadPart) (r : UploadPart)
    → p.part_number ≡ first
    → Numbered (first + 1) ps
    → greatest ps ≡ some r
    → greatest (p ∷ ps) ≡ some r
unfolding greatest
greatest-cons first p ps r n h e =
    let bound = greatest-bound (first + 1) ps r h e in rw e (ground arith)

greatest-some :
    (p : UploadPart) (ps : List UploadPart) → (r : UploadPart) × (greatest (p ∷ ps) ≡ some r)
unfolding greatest
greatest-some p ps = elim (Option-cases (greatest ps)) [
  | inl e ↦ (p, rw e)
  | inr (r, e) ↦ elim (Bool-cases (ltb r.part_number p.part_number)) [
    | inl below ↦ (p, rw (e, below))
    | inr above ↦ (r, rw (e, above))
  ]
]

pub greatest-eq-last :
    (first : ℕ) (ps : List UploadPart) → Numbered first ps → greatest ps ≡ last ps
greatest-eq-last first [] h = unfold greatest in refl
greatest-eq-last first (p ∷ []) h = unfold greatest in refl
greatest-eq-last first (p ∷ q ∷ ps) (n, h) =
    let (r, e) = greatest-some q ps in
    greatest-cons first p (q ∷ ps) r n h e ∙ (sym e ∙ greatest-eq-last (first + 1) (q ∷ ps) h)

pub Uniform-concat :
    (s : ℕ) (ps : List UploadPart) (p : UploadPart)
    → Uniform s ps
    → (size_of (last ps) ≡ none) ⊎ (size_of (last ps) ≡ some s)
    → 0 < p.size
    → p.size ≤ s
    → Uniform s (ps ++ p ∷ [])
Uniform-concat s [] p h l a b = (a, b)
Uniform-concat s (q ∷ []) p h l a b = ground arith
Uniform-concat s (q ∷ r ∷ ps) p (e, h) l a b = (e, Uniform-concat s (r ∷ ps) p h l a b)

-- Sorting numbered parts leaves them as they are.
insert_by-le :
    (first : ℕ) (p : UploadPart) (ps : List UploadPart)
    → p.part_number ≡ first
    → Numbered (first + 1) ps
    → insert_by (λ p q. leb p.part_number q.part_number) p ps ≡ p ∷ ps
unfolding insert_by
insert_by-le first p [] e h = refl
insert_by-le first p (q ∷ ps) e (e', h) = ground arith

pub order_by-Numbered :
    (first : ℕ) (ps : List UploadPart)
    → Numbered first ps
    → order_by (λ p q. leb p.part_number q.part_number) ps ≡ ps
unfolding order_by
order_by-Numbered first [] h = refl
order_by-Numbered first (p ∷ ps) (e, h) =
    rw (order_by-Numbered (first + 1) ps h) (insert_by-le first p ps e h)
