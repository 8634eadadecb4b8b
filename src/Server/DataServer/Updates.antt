-- ===== src/Server/DataServer/Updates.antt =====
-- Updates of the data server against each other: the version check of `UpdateDataHandler` in
-- dev/svr/datasvrd/handler_common.cpp over sequences of requests, and what is read back.
use lsf.Prelude.{
  ℕ, ◌+◌, ◌^◌, ◌≤◌, ◌<◌, suc, Bool, true, false, some, ◌≡◌, add64, arith, ◌⊎◌, inl, inr, Bool-cases,
  ◌∙◌, ap, subst, eq_of_==, ==_refl,
}
use lsf.Server.Messages.{
  ControlInfo, Request, query_req, update_req, insert_req, delete_req, unlock_notify,
}
use lsf.Server.DataServer.{found, LevelDb, Env, serve, Laws}
use lsf.Server.DataServer.Locks.{same_key, serve-Frame, key_type, key_id}
use lsf.Server.DataServer.Versions.{
  read_version, read_version-found, version_at, on_query-version, on_update-version,
  on_insert-version, on_unlock-version,
}

-- The requests that remove a key.
abbrev pub removes : ℕ → ℕ → Request → Bool
removes t i (query_req t' i' v n) = false
removes t i (update_req t' i' v l d) = false
removes t i (insert_req t' i' d) = false
removes t i (delete_req t' i') = same_key t' i' t i
removes t i (unlock_notify t' i' l) = false

module _ {S : Type 0} (db : LevelDb S) where
  -- So many requests, none of which removes the key.
  pub data Kept (t i : ℕ) (s : S) : ℕ → S → Type 0 where
    stay : Kept t i s 0 s
    next :
        (n : ℕ) (s' : S)
        → Kept t i s n s'
        → (env : Env) (r : Request) → removes t i r ≡ false
        → Kept t i s (suc n) (serve db env r s').1

  -- The version of a key is at least the first bound and at most the second.
  unfoldable pub Between : ℕ → ℕ → ℕ → ℕ → S → Type 0
  Between t i low high s = (v : ℕ) × ((version_at db t i s ≡ some v) × ((low ≤ v) × (v ≤ high)))

module _ {S : Type 0} (db : LevelDb S) (laws : Laws db) where
  -- What a request does to the version of a key.
  Steps : Env → S → Request → ControlInfo → ℕ → ℕ → Type 0
  Steps env s r c t i =
      db.read_control t i s ≡ found c
      → removes t i r ≡ false
      → (version_at db t i (serve db env r s).1 ≡ some c.version)
        ⊎ (version_at db t i (serve db env r s).1 ≡ some (add64 c.version 1))

  serve-version :
      (env : Env) (s : S) (r : Request) (c : ControlInfo) → Steps env s r c (key_type r) (key_id r)
  unfolding serve Steps
  serve-version env s (query_req t i v n) c read kept =
      inl (on_query-version db laws env t i s c read v n)
  serve-version env s (update_req t i v l d) c read kept =
      on_update-version db laws env t i s c read v l d
  serve-version env s (insert_req t i d) c read kept =
      inl (on_insert-version db laws env t i s c read d)
  serve-version env s (delete_req t i) c read kept =
      absurd (ground (arith, kept, ==_refl t, ==_refl i))
  serve-version env s (unlock_notify t i l) c read kept =
      inl (on_unlock-version db laws env t i s c read l)

  pub version-found :
      (t i v : ℕ) (s : S)
      → version_at db t i s ≡ some v
      → (c : ControlInfo) × ((db.read_control t i s ≡ found c) × (c.version ≡ v))
  unfolding version_at
  version-found t i v s h = read_version-found (db.read_control t i s) v h

  version-Frame :
      (env : Env) (t i : ℕ) (s : S) (r : Request)
      → same_key (key_type r) (key_id r) t i ≡ false
      → version_at db t i (serve db env r s).1 ≡ version_at db t i s
  unfolding version_at
  version-Frame env t i s r h = ap read_version (serve-Frame db laws env r s t i h)

  key-version :
      (env : Env) (s : S) (r : Request) (c : ControlInfo) (t i : ℕ)
      → same_key (key_type r) (key_id r) t i ≡ true
      → Steps env s r c t i
  key-version env s r c t i h =
      let p = eq_of_== (key_type r) t (ground (arith, h)) in
      let q = eq_of_== (key_id r) i (ground (arith, h)) in
      subst (λ x. Steps env s r c x i) p
        (subst (Steps env s r c (key_type r)) q (serve-version env s r c))

  serve-Between :
      (env : Env) (t i low high : ℕ) (s : S) (r : Request)
      → Between db t i low high s
      → removes t i r ≡ false
      → suc high < 2 ^ 64
      → Between db t i low (suc high) (serve db env r s).1
  unfolding Between Steps
  serve-Between env t i low high s r (v, (e, (lo, hi))) kept small =
      elim (Bool-cases (same_key (key_type r) (key_id r) t i)) [
        | inr h ↦ (v, (version-Frame env t i s r h ∙ e, (lo, omega arith)))
        | inl h ↦
            let (c, (read, eq)) = version-found t i v s e in
            elim (key-version env s r c t i h read kept) [
              | inl same ↦ (v, (same ∙ ap some eq, (lo, omega arith)))
              | inr more ↦ (
                suc v,
                (more ∙ ap some (ground (arith, eq, hi, small)), (omega arith, omega arith)),
              )
            ]
      ]

  pub Kept-Between :
      (t i low high : ℕ) (s : S) (n : ℕ) (s' : S)
      → Kept db t i s n s'
      → Between db t i low high s
      → high + n < 2 ^ 64
      → Between db t i low (high + n) s'
  Kept-Between t i low high s _ _ stay b small = subst (λ x. Between db t i low x s) (omega arith) b
  Kept-Between t i low high s _ _ (next n s' k env r kept) b small =
      subst (λ x. Between db t i low x (serve db env r s').1) (omega arith)
        (serve-Between env t i low (high + n) s' r
          (Kept-Between t i low high s n s' k b (omega arith)) kept (omega arith))
