-- ===== src/Server/DataServer/Writes.antt =====
-- What the updates and inserts of the data server leave and what is read back: `UpdateDataHandler`,
-- `InsertDataHandler` and `QueryDataHandler` of dev/svr/datasvrd/handler_common.cpp.
use lsf.Prelude.{
  ℕ, ◌+◌, ◌%◌, ◌^◌, ◌<◌, false, none, some, ◌≡◌, ◌≢◌, add64, arith, refl, ◌⊎◌, inl, inr,
  Option-cases, ◌∙◌, sym, ap, subst, ==_refl,
}
use lsf.Server.Messages.{DbData, ControlInfo, ok_result, already_has_data, Response}
use lsf.Server.DataServer.{
  found, LevelDb, Env, update_timeout_lock, reply, query_control, query_data, query_content,
  on_query, save, on_update, on_insert, Laws,
}
use lsf.Server.DataServer.Exclusion.{query_control-found, has_control-found}
use lsf.Server.DataServer.Versions.{read_version, version_at, version-update_timeout_lock}
use lsf.Server.DataServer.Updates.{Kept, Between, Kept-Between, version-found}

unlocked : (env : Env) (c : ControlInfo) → c.last_lock_id ≡ none → update_timeout_lock env c ≡ c
unfolding update_timeout_lock
unlocked env c h = ground (arith, h)

module _ {S : Type 0} (db : LevelDb S) (laws : Laws db) where
  -- What a successful batch leaves.
  abbrev Saved : Env → ℕ → ℕ → ℕ → DbData → S → Type 0
  Saved env t i v d s =
      (db.read_control t i s
        ≡ found (record {
          version = v;
          update_time = env.now_second;
          last_lock_id = none;
          last_lock_time = none;
        }))
      × (db.read_data t i s ≡ found d)

  save-Saved :
      (env : Env) (c : ControlInfo) (rsp : Response) (t i : ℕ) (d : DbData) (s : S)
      → (save db env c rsp t i d s).0.result ≡ ok_result
      → Saved env t i (add64 c.version 1) d (save db env c rsp t i d s).1
  unfolding save
  save-Saved env c rsp t i d s h =
      let c' : ControlInfo = record {
        version = add64 c.version 1;
        update_time = env.now_second;
        last_lock_id = none;
        last_lock_time = none;
      } in
      elim (Option-cases (db.put_both t i c' d s)) [
        | inl e ↦ absurd (ground (arith, e, h))
        | inr (s', e) ↦
            let f = ==_refl t in
            let g = ==_refl i in
            (
              ground (arith, e, laws.control-put_both t i t i c' d s s' e, f, g),
              ground (arith, e, laws.data-put_both t i t i c' d s s' e, f, g),
            )
      ]

  -- An update that is answered without an error has been let through, and has been saved.
  on_update-saves :
      (env : Env) (t i v l : ℕ) (d : DbData) (s : S)
      → (on_update db env t i v l d s).0.result ≡ ok_result
      → (c : ControlInfo) × ((query_control db t i s ≡ some c)
          × ((v ≡ c.version)
              × (on_update db env t i v l d s
                  ≡ save db env
                      (update_timeout_lock env c)
                      (record (reply t i ok_result) { version = some (v % 2 ^ 32) })
                      t
                      i
                      d
                      s)))
  unfolding on_update
  on_update-saves env t i v l d s h = elim (Option-cases (query_control db t i s)) [
    | inl e ↦ absurd (ground (arith, e, h))
    | inr (c, e) ↦
        let k = version-update_timeout_lock env c in
        (c, (e, (ground (arith, e, h, k), ground (arith, e, h, k))))
  ]

  on_update-Saved :
      (env : Env) (t i v l : ℕ) (d : DbData) (s : S)
      → (on_update db env t i v l d s).0.result ≡ ok_result
      → Saved env t i (add64 v 1) d (on_update db env t i v l d s).1
  on_update-Saved env t i v l d s h =
      let (c, (e, (same, eq))) = on_update-saves env t i v l d s h in
      let rsp : Response = record (reply t i ok_result) { version = some (v % 2 ^ 32) } in
      let newest = update_timeout_lock env c in
      let saved = save-Saved env newest rsp t i d s (sym (ap (λ p. p.0.result) eq) ∙ h) in
      let version : newest.version ≡ v = version-update_timeout_lock env c ∙ sym same in
      subst (λ x. Saved env t i (add64 v 1) d x.1) (sym eq)
        (subst (λ x. Saved env t i (add64 x 1) d (save db env newest rsp t i d s).1) version saved)

  save-cases :
      (env : Env) (c : ControlInfo) (rsp : Response) (t i : ℕ) (d : DbData) (s : S)
      → ((save db env c rsp t i d s).0 ≡ rsp) ⊎ ((save db env c rsp t i d s).1 ≡ s)
  unfolding save
  save-cases env c rsp t i d s =
      let c' : ControlInfo = record {
        version = add64 c.version 1;
        update_time = env.now_second;
        last_lock_id = none;
        last_lock_time = none;
      } in
      elim (Option-cases (db.put_both t i c' d s)) [
        | inl e ↦ inr (ground (arith, e))
        | inr (s', e) ↦ inl (ground (arith, e))
      ]

  -- An update that is answered with an error leaves the database as it is.
  pub on_update-unchanged :
      (env : Env) (t i v l : ℕ) (d : DbData) (s : S)
      → (on_update db env t i v l d s).0.result ≢ ok_result
      → (on_update db env t i v l d s).1 ≡ s
  unfolding on_update
  on_update-unchanged env t i v l d s h = elim (Option-cases (query_control db t i s)) [
    | inl e ↦ ground (arith, e)
    | inr (c, e) ↦
        let newest = update_timeout_lock env c in
        let rsp : Response = record (reply t i ok_result) {
          version = some (newest.version % 2 ^ 32);
        } in
        elim (save-cases env newest rsp t i d s) [
          | inl good ↦ ground (arith, e, good, h)
          | inr same ↦ ground (arith, e, same)
        ]
  ]

  -- A key with a version refuses an update with another one.
  on_update-stale :
      (env : Env) (t i v w l : ℕ) (d : DbData) (s : S)
      → version_at db t i s ≡ some w
      → w ≢ v
      → (on_update db env t i v l d s).0.result ≢ ok_result
  on_update-stale env t i v w l d s e ne h =
      let (c, (q, (same, eq))) = on_update-saves env t i v l d s h in
      let (c', (read, eq')) = version-found db laws t i w s e in
      let there = query_control-found db t i c' s read in ne (ground (arith, same, eq', q, there))

  version-Saved :
      (env : Env) (t i v : ℕ) (d : DbData) (s : S)
      → Saved env t i v d s
      → version_at db t i s ≡ some v
  unfolding version_at
  version-Saved env t i v d s saved = ap read_version saved.0

  -- After an update that is answered without an error, and any requests that do not remove the
  -- key, an update with the same version is not answered without an error, provided that the
  -- version, 1 and the number of the requests together are below 2^64.
  pub no-lost-update :
      (env env' : Env) (t i v l l' n : ℕ) (d d' : DbData) (s s' : S)
      → (on_update db env t i v l d s).0.result ≡ ok_result
      → Kept db t i (on_update db env t i v l d s).1 n s'
      → v + 1 + n < 2 ^ 64
      → (on_update db env' t i v l' d' s').0.result ≢ ok_result
  unfolding Between
  no-lost-update env env' t i v l l' n d d' s s' h k small =
      let start = (on_update db env t i v l d s).1 in
      let saved = on_update-Saved env t i v l d s h in
      let at : version_at db t i start ≡ some (v + 1) =
        version-Saved env t i (add64 v 1) d start saved ∙ ap some (ground (arith, small)) in
      let (w, (e, (lo, hi))) =
        Kept-Between db laws t i (v + 1) (v + 1) start n s' k
          (v + 1, (at, (omega arith, omega arith))) small in
      on_update-stale env' t i v w l' d' s' e (λ (eq : w ≡ v). omega arith)

  -- What was saved last is what a query without a lock answers.
  on_query-Saved :
      (env env' : Env) (t i v : ℕ) (d : DbData) (s : S)
      → Saved env t i v d s
      → on_query db env' t i none false s
        ≡ (record (reply t i ok_result) { version = some (v % 2 ^ 32); content = d }, s)
  unfolding on_query query_content query_data
  on_query-Saved env env' t i v d s (control, content) =
      let c : ControlInfo = record {
        version = v;
        update_time = env.now_second;
        last_lock_id = none;
        last_lock_time = none;
      } in
      ground (arith, query_control-found db t i c s control, unlocked env' c refl, content)

  -- After an update that is answered without an error, a query without a lock and a version gives
  -- the data of the update and the next version.
  pub on_update-on_query :
      (env env' : Env) (t i v l : ℕ) (d : DbData) (s : S)
      → (on_update db env t i v l d s).0.result ≡ ok_result
      → let s' = (on_update db env t i v l d s).1 in
        on_query db env' t i none false s'
        ≡ (record (reply t i ok_result) { version = some (add64 v 1 % 2 ^ 32); content = d }, s')
  on_update-on_query env env' t i v l d s h =
      on_query-Saved env env' t i (add64 v 1) d (on_update db env t i v l d s).1
        (on_update-Saved env t i v l d s h)

  on_insert-Saved :
      (env : Env) (t i : ℕ) (d : DbData) (s : S)
      → (on_insert db env t i d s).0.result ≡ ok_result
      → Saved env t i 1 d (on_insert db env t i d s).1
  unfolding on_insert
  on_insert-Saved env t i d s h =
      let c' : ControlInfo = record {
        version = 1;
        update_time = env.now_second;
        last_lock_id = none;
        last_lock_time = none;
      } in
      elim (Option-cases (db.put_both t i c' d s)) [
        | inl e ↦ absurd (ground (arith, e, h))
        | inr (s', e) ↦
            let f = ==_refl t in
            let g = ==_refl i in
            (
              ground (arith, e, h, laws.control-put_both t i t i c' d s s' e, f, g),
              ground (arith, e, h, laws.data-put_both t i t i c' d s s' e, f, g),
            )
      ]

  on_insert-on_query :
      (env env' : Env) (t i : ℕ) (d : DbData) (s : S)
      → (on_insert db env t i d s).0.result ≡ ok_result
      → let s' = (on_insert db env t i d s).1 in
        on_query db env' t i none false s'
        ≡ (record (reply t i ok_result) { version = some 1; content = d }, s')
  on_insert-on_query env env' t i d s h =
      on_query-Saved env env' t i 1 d (on_insert db env t i d s).1 (on_insert-Saved env t i d s h)

  -- A key that has a version is not inserted again, whatever the request.
  on_insert-there :
      (env : Env) (t i v : ℕ) (d : DbData) (s : S)
      → version_at db t i s ≡ some v
      → on_insert db env t i d s ≡ (reply t i already_has_data, s)
  unfolding on_insert
  on_insert-there env t i v d s e =
      let (c, (read, eq)) = version-found db laws t i v s e in
      ground (arith, has_control-found db t i c s read)
