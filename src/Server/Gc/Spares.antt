-- ===== src/Server/Gc/Spares.antt =====
-- gc.rs, run_once: the upload sessions that a pass leaves alone.
use jcr.Prelude.{
  true-false, ℕ, zero, suc, ◌≡◌, refl, sym, ◌∙◌, ap, inl, inr, Bool, true, false, ◌&&◌, ◌||◌, List,
  [], ◌∷◌, arith, leb, ◌==◌, ==_iff, Bool-cases, any, All,
}
use mathlib.Core.Path.{subst}
use mathlib.Core.List.{Memᴰ}
use mathlib.Core.List.Memᴰ
use jcr.Storage.{BlobStore}
use jcr.Server.Database.{Database}
use jcr.Server.Database.Rows.{UploadSession, UploadStatus}
use jcr.Server.Database.Tables.{select, order_by, insert_by, take}
use jcr.Server.Database.Tables.Keys.{Unique, Unique-update}
use jcr.Server.Exec.{World, gets, ◌>>=◌}
use jcr.Server.Exec.Keeps.{Keeps}
use jcr.Server.Upload.{Config}
use jcr.Server.Upload.Cancellation.{Mem-update_spared}
use jcr.Server.Gc.{
  expire_session, expired_uploads, clean_expired_uploads, claim_blob, restore_blob, unlink_blob,
  run_once, is_open,
}
use jcr.Server.Gc.Laws.{Kept, expire_uploads-Keeps, run_once-Keeps}

module _ {A : Type 0} where
  All-select :
      (P : A → Type 0) (p : A → Bool) (rs : List A)
      → ((r : A) → Memᴰ r rs → p r ≡ true → P r)
      → All P (select p rs)
  unfolding select
  All-select P p [] k = tt
  All-select P p (r ∷ rs) k = elim (Bool-cases (p r)) [
    | inl e ↦ rw e (k r (Memᴰ.head refl) e, All-select P p rs (λ q m h. k q (Memᴰ.tail m) h))
    | inr e ↦ rw e (All-select P p rs (λ q m h. k q (Memᴰ.tail m) h))
  ]

  All-insert_by :
      (P : A → Type 0) (le : A → A → Bool) (r : A) (rs : List A)
      → P r
      → All P rs
      → All P (insert_by le r rs)
  unfolding insert_by
  All-insert_by P le r [] h k = (h, tt)
  All-insert_by P le r (q ∷ rs) h (k, ks) = elim (Bool-cases (le r q)) [
    | inl e ↦ rw e (h, (k, ks))
    | inr e ↦ rw e (k, All-insert_by P le r rs h ks)
  ]

  All-order_by :
      (P : A → Type 0) (le : A → A → Bool) (rs : List A) → All P rs → All P (order_by le rs)
  unfolding order_by
  All-order_by P le [] k = tt
  All-order_by P le (r ∷ rs) (k, ks) =
      All-insert_by P le r (order_by le rs) k (All-order_by P le rs ks)

  All-take : (P : A → Type 0) (n : ℕ) (rs : List A) → All P rs → All P (take n rs)
  unfolding take
  All-take P zero rs k = tt
  All-take P (suc n) [] k = tt
  All-take P (suc n) (r ∷ rs) (k, ks) = (k, All-take P n rs ks)

  any_of_Mem : (p : A → Bool) (rs : List A) (r : A) → Memᴰ r rs → p r ≡ true → any p rs ≡ true
  any_of_Mem p [] r m h = absurd (Memᴰ.not-nil m)
  any_of_Mem p (q ∷ rs) r (Memᴰ.head e) h = rw (subst (λ x. p x ≡ true) e h) refl
  any_of_Mem p (q ∷ rs) r (Memᴰ.tail m) h = or_true (p q) (any p rs) (any_of_Mem p rs r m h)
    where
      or_true : (a b : Bool) → b ≡ true → a || b ≡ true
      or_true a b e = ground arith

  -- Rows with one key are one row.
  one_row :
      (key : A → ℕ) (rs : List A) (r q : A)
      → Unique key rs
      → Memᴰ r rs
      → Memᴰ q rs
      → key r ≡ key q
      → r ≡ q
  one_row key [] r q u m m' e = absurd (Memᴰ.not-nil m)
  one_row key (a ∷ rs) r q (u, us) (Memᴰ.head h) (Memᴰ.head k) e = h ∙ sym k
  one_row key (a ∷ rs) r q (u, us) (Memᴰ.head h) (Memᴰ.tail m) e = absurd (
      true-false (
        sym
          (any_of_Mem (λ b. key b == key a) rs q m ((==_iff (key q) (key a)).1 (sym e ∙ ap key h)))
        ∙ u))
  one_row key (a ∷ rs) r q (u, us) (Memᴰ.tail m) (Memᴰ.head k) e = absurd (
      true-false (
        sym (any_of_Mem (λ b. key b == key a) rs r m ((==_iff (key r) (key a)).1 (e ∙ ap key k)))
        ∙ u))
  one_row key (a ∷ rs) r q (u, us) (Memᴰ.tail m) (Memᴰ.tail m') e = one_row key rs r q us m m' e

-- a session that still takes chunks or is being completed, and has expired
abbrev pub is_expired : ℕ → UploadSession → Bool
is_expired now u = is_open u.status && leb u.expires_at now

module _ {S : Type 0} (store : BlobStore S) (now : ℕ) (u : UploadSession)
    (live : is_expired now u ≡ false) where
  -- the session is there, and no two sessions have one id
  abbrev IsThere : Database → Type 0
  IsThere db = Memᴰ u db.upload_sessions × Unique (λ u. u.id) db.upload_sessions

  not_this :
      (db : Database) (v : UploadSession)
      → IsThere db
      → Memᴰ v db.upload_sessions
      → is_expired now v ≡ true
      → (u.id == v.id && is_open u.status) ≡ false
  not_this db v (there, unique) member expired = elim (Bool-cases (u.id == v.id)) [
    | inr other ↦ rw other refl
    | inl same ↦
        let one =
          one_row (λ u. u.id) db.upload_sessions u v unique there member
            ((==_iff u.id v.id).0 same) in
        absurd (true-false (sym expired ∙ (ap (is_expired now) (sym one) ∙ live)))
  ]

  expired-IsThere :
      (v : UploadSession) (db : Database)
      → (u.id == v.id && is_open u.status) ≡ false
      → IsThere db
      → IsThere (expire_session v.id db)
  unfolding expire_session
  expired-IsThere v db other (there, unique) = (
    Mem-update_spared (λ w. w.id == v.id && is_open w.status)
        (λ w. record w { status = UploadStatus.failed }) db.upload_sessions u there other,
    Unique-update (λ u. u.id) (λ w. w.id == v.id && is_open w.status)
        (λ w. record w { status = UploadStatus.failed }) db.upload_sessions (λ u. refl) unique,
  )

  spared :
      (db : Database)
      → IsThere db
      → All
          (λ v. (db : Database) → IsThere db → IsThere (expire_session v.id db))
          (expired_uploads now db)
  unfolding expired_uploads
  spared db there = All-take _ 100 _ (
      All-order_by _ _ _ (
        All-select _ (is_expired now) db.upload_sessions (λ v member expired db' there'.
          expired-IsThere v db' (not_this db v there member expired) there')))

  cleaned : Keeps IsThere (clean_expired_uploads store now)
  unfolding clean_expired_uploads gets ◌>>=◌
  cleaned = record {
    at = λ w there.
        (expire_uploads-Keeps store IsThere (expired_uploads now w.db) (spared w.db there)).at w
          there;
  }

  Kept-IsThere : Kept IsThere
  unfolding claim_blob restore_blob unlink_blob
  Kept-IsThere = record {
    claims = λ now cutoff digest db h. h;
    restores = λ digest db h. h;
    unlinks = λ digest db h. h;
  }

-- A pass of the garbage collection leaves every upload session as it is that has not expired, or that is
-- committed, cancelled or failed, whatever calls of the store fail; the ids of sessions are a key of their table.
pub run_once-spares :
    {S : Type 0} (store : BlobStore S) (config : Config) (now : ℕ) (u : UploadSession) (w : World S)
    → Unique (λ u. u.id) w.db.upload_sessions
    → is_expired now u ≡ false
    → Memᴰ u w.db.upload_sessions
    → Memᴰ u (run_once store config now w).1.db.upload_sessions
run_once-spares store config now u w unique live there =
    ((run_once-Keeps store (IsThere store now u live) (Kept-IsThere store now u live) config now
        (cleaned store now u live)).at
      w (there, unique)).0
