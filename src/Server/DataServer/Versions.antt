-- ===== src/Server/DataServer/Versions.antt =====
-- The versions of the data server's records, `DBControlInfo.version` of
-- dev/svr/datasvrd/handler_common.cpp, under each of the handlers.
use lsf.Prelude.{
  ℕ, ◌%◌, ◌^◌, Bool, Option, none, some, ◌≡◌, add64, arith, refl, ◌⊎◌, inl, inr, Option-cases, ◌∙◌,
  sym, ap, ==_refl,
}
use lsf.Server.Messages.{DbData, ControlInfo, ok_result, Response}
use lsf.Server.DataServer.{
  Read, found, unparsed, not_found, failed, LevelDb, Env, update_timeout_lock, reply, query_locked,
  on_query, save, on_update, on_insert, on_unlock, Laws,
}
use lsf.Server.DataServer.Exclusion.{query_control-found, has_control-found}

pub version-update_timeout_lock :
    (env : Env) (c : ControlInfo) → (update_timeout_lock env c).version ≡ c.version
unfolding update_timeout_lock
version-update_timeout_lock env c = ground arith

abbrev pub read_version : Read ControlInfo → Option ℕ
read_version (found c) = some c.version
read_version unparsed = none
read_version not_found = none
read_version failed = none

pub read_version-found :
    (r : Read ControlInfo) (v : ℕ)
    → read_version r ≡ some v
    → (c : ControlInfo) × ((r ≡ found c) × (c.version ≡ v))
read_version-found (found c) v h = (c, (refl, ground (arith, h)))
read_version-found unparsed v h = absurd (cc)
read_version-found not_found v h = absurd (cc)
read_version-found failed v h = absurd (cc)

module _ {S : Type 0} (db : LevelDb S) where
  -- The version that a key has, if there is control information that can be read.
  unfoldable pub version_at : ℕ → ℕ → S → Option ℕ
  version_at t i s = read_version (db.read_control t i s)

module _ {S : Type 0} (db : LevelDb S) (laws : Laws db) where
  put-version :
      (t i : ℕ) (c : ControlInfo) (s s' : S)
      → db.put_control t i c s ≡ some s'
      → version_at db t i s' ≡ some c.version
  unfolding version_at
  put-version t i c s s' e =
      ground (arith, laws.control-put_control t i t i c s s' e, ==_refl t, ==_refl i)

  pub put_both-version :
      (t i : ℕ) (c : ControlInfo) (d : DbData) (s s' : S)
      → db.put_both t i c d s ≡ some s'
      → version_at db t i s' ≡ some c.version
  unfolding version_at
  put_both-version t i c d s s' e =
      ground (arith, laws.control-put_both t i t i c d s s' e, ==_refl t, ==_refl i)

  query_locked-version :
      (env : Env) (asked : Option ℕ) (c : ControlInfo) (rsp : Response) (t i : ℕ) (s : S)
      → version_at db t i s ≡ some c.version
      → version_at db t i (query_locked db env asked c rsp t i s).1 ≡ some c.version
  unfolding query_locked
  query_locked-version env asked c rsp t i s h =
      let c' : ControlInfo = record c {
        last_lock_id = some env.random_lock;
        last_lock_time = some env.now_milli;
      } in
      elim (Option-cases (db.put_control t i c' s)) [
        | inl e ↦ ground (arith, e, h)
        | inr (s', e) ↦ ground (arith, e, h, put-version t i c' s s' e)
      ]

  save-version :
      (env : Env) (c : ControlInfo) (rsp : Response) (t i : ℕ) (d : DbData) (s : S)
      → version_at db t i s ≡ some c.version
      → (version_at db t i (save db env c rsp t i d s).1 ≡ some c.version)
        ⊎ (version_at db t i (save db env c rsp t i d s).1 ≡ some (add64 c.version 1))
  unfolding save
  save-version env c rsp t i d s h =
      let c' : ControlInfo = record {
        version = add64 c.version 1;
        update_time = env.now_second;
        last_lock_id = none;
        last_lock_time = none;
      } in
      elim (Option-cases (db.put_both t i c' d s)) [
        | inl e ↦ inl (ground (arith, e, h))
        | inr (s', e) ↦ inr (ground (arith, e, h, put_both-version t i c' d s s' e))
      ]

  -- The handlers on a key whose control information is there.
  module _ (env : Env) (t i : ℕ) (s : S) (c : ControlInfo)
      (read : db.read_control t i s ≡ found c) where
    pub version_here : version_at db t i s ≡ some c.version
    unfolding version_at
    version_here = ap read_version read

    newest : ControlInfo
    newest = update_timeout_lock env c

    pub on_query-version :
        (asked : Option ℕ) (need : Bool)
        → version_at db t i (on_query db env t i asked need s).1 ≡ some c.version
    unfolding on_query newest
    on_query-version asked need = ground (
      arith,
      query_control-found db t i c s read,
      version-update_timeout_lock env c,
      version_here,
      query_locked-version env asked newest
          (record (reply t i ok_result) { version = some (newest.version % 2 ^ 32) }) t i s
          (version_here ∙ ap some (sym (version-update_timeout_lock env c))),
    )

    pub on_update-version :
        (v l : ℕ) (d : DbData)
        → (version_at db t i (on_update db env t i v l d s).1 ≡ some c.version)
          ⊎ (version_at db t i (on_update db env t i v l d s).1 ≡ some (add64 c.version 1))
    unfolding on_update newest
    on_update-version v l d = ground (
      arith,
      query_control-found db t i c s read,
      version-update_timeout_lock env c,
      version_here,
      save-version env newest
          (record (reply t i ok_result) { version = some (newest.version % 2 ^ 32) }) t i d s
          (version_here ∙ ap some (sym (version-update_timeout_lock env c))),
    )

    pub on_insert-version :
        (d : DbData) → version_at db t i (on_insert db env t i d s).1 ≡ some c.version
    unfolding on_insert
    on_insert-version d = ground (arith, has_control-found db t i c s read, version_here)

    pub on_unlock-version : (l : ℕ) → version_at db t i (on_unlock db env t i l s) ≡ some c.version
    unfolding on_unlock newest
    on_unlock-version l =
        let c' : ControlInfo = record newest { last_lock_id = none; last_lock_time = none } in
        elim (Option-cases (db.put_control t i c' s)) [
          | inl e ↦ ground (arith, e, query_control-found db t i c s read, version_here)
          | inr (s', e) ↦ ground (
            arith,
            e,
            query_control-found db t i c s read,
            version_here,
            version-update_timeout_lock env c,
            put-version t i c' s s' e,
          )
        ]
