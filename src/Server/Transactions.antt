-- ===== src/Server/Transactions.antt =====
-- The session handler and the data server together: what dev/svr/common/basic_handler.cpp keeps of
-- an answer to a query is what dev/svr/datasvrd/handler_common.cpp wants of the update.
use lsf.Prelude.{
  ℕ, ◌%◌, ◌^◌, ◌<◌, true, Option, none, some, leb, ◌≡◌, add64, arith, refl, ◌⊎◌, inl, inr,
  Option-cases, ◌∙◌, sym, ap,
}
use lsf.Server.Messages.{DbData, ControlInfo, ok_result, leveldb_failed, or_zero, Response}
use lsf.Server.DataServer.{
  found, LevelDb, Env, update_timeout_lock, reply, query_control, query_content, query_locked,
  on_query, on_update, save, Laws,
}
use lsf.Server.DataServer.Exclusion.{IsLocked, query_control-found, update_timeout_lock-kept}
use lsf.Server.DataServer.Runs.{
  Quiet, Quiet-read, query_locked-read, on_query-query_locked, on_query-unread,
}
use lsf.Server.Handler.{DbHandle}
use lsf.Server.Handler.Handles.{fill}

module _ {S : Type 0} (db : LevelDb S) (laws : Laws db) where
  query_content-fields :
      (asked : Option ℕ) (current : ℕ) (rsp : Response) (t i : ℕ) (s : S)
      → ((query_content db asked current rsp t i s).version ≡ rsp.version)
        × ((query_content db asked current rsp t i s).lock_id ≡ rsp.lock_id)
  unfolding query_content
  query_content-fields asked current rsp t i s = (ground arith, ground arith)

  query_locked-fields :
      (env : Env) (asked : Option ℕ) (c : ControlInfo) (rsp : Response) (t i : ℕ) (s : S)
      → (query_locked db env asked c rsp t i s).0.result ≡ ok_result
      → ((query_locked db env asked c rsp t i s).0.version ≡ rsp.version)
        × ((query_locked db env asked c rsp t i s).0.lock_id ≡ some env.random_lock)
  unfolding query_locked
  query_locked-fields env asked c rsp t i s h =
      let c' : ControlInfo = record c {
        last_lock_id = some env.random_lock;
        last_lock_time = some env.now_milli;
      } in
      let rsp' : Response = record rsp { lock_id = some env.random_lock } in
      elim (Option-cases (db.put_control t i c' s)) [
        | inl e ↦ absurd (ground (arith, e, h))
        | inr (s', e) ↦
            let (version, lock) = query_content-fields asked c.version rsp' t i s' in
            (ground (arith, e, h, version, lock), ground (arith, e, h, version, lock))
      ]

  -- What a query with a lock has done when it is answered without an error.
  record Granted (env : Env) (t i : ℕ) (asked : Option ℕ) (s : S) : Type 0 where
    info : ControlInfo
    read : db.read_control t i (on_query db env t i asked true s).1 ≡ found info
    lock : info.last_lock_id ≡ some env.random_lock
    since : info.last_lock_time ≡ some env.now_milli
    version : (on_query db env t i asked true s).0.version ≡ some (info.version % 2 ^ 32)
    lock_id : (on_query db env t i asked true s).0.lock_id ≡ some env.random_lock

  on_query-Granted :
      (env : Env) (t i : ℕ) (asked : Option ℕ) (s : S)
      → (on_query db env t i asked true s).0.result ≡ ok_result
      → Granted env t i asked s
  on_query-Granted env t i asked s h =
      elim (Option-cases (query_control db t i s)) as (λ _. Granted env t i asked s) [
        | inl e ↦ absurd (on_query-unread db laws env t i asked s e h)
        | inr (info, e) ↦
            let eq = on_query-query_locked db laws env t i asked info s e in
            let c = update_timeout_lock env info in
            let rsp : Response = record (reply t i ok_result) {
              version = some (c.version % 2 ^ 32);
            } in
            let ok = sym (ap (λ p. p.0.result) eq) ∙ h in
            let (version, lock) = query_locked-fields env asked c rsp t i s ok in
            record {
              info = record c {
                last_lock_id = some env.random_lock;
                last_lock_time = some env.now_milli;
              };
              read =
                  ap (λ p. db.read_control t i p.1) eq
                  ∙ query_locked-read db laws env asked c rsp t i s ok;
              lock = refl;
              since = refl;
              version = ap (λ p. p.0.version) eq ∙ version;
              lock_id = ap (λ p. p.0.lock_id) eq ∙ lock;
            }
      ]

  -- An update with the version and the lock of the key gets to the batch.
  on_update-accepted :
      (env : Env) (t i v l time : ℕ) (d : DbData) (s : S) (c : ControlInfo)
      → db.read_control t i s ≡ found c
      → c.version ≡ v
      → c.last_lock_id ≡ some l
      → c.last_lock_time ≡ some time
      → leb env.now_milli (add64 time env.lock_timeout) ≡ true
      → on_update db env t i v l d s
        ≡ save db env c
            (record (reply t i ok_result) { version = some (c.version % 2 ^ 32) })
            t
            i
            d
            s
  unfolding on_update
  on_update-accepted env t i v l time d s c read version lock since fresh = ground (
    arith,
    query_control-found db t i c s read,
    update_timeout_lock-kept env c l time lock since fresh,
    version,
    lock,
  )

  save-results :
      (env : Env) (c : ControlInfo) (rsp : Response) (t i : ℕ) (d : DbData) (s : S)
      → ((save db env c rsp t i d s).0.result ≡ rsp.result)
        ⊎ ((save db env c rsp t i d s).0.result ≡ leveldb_failed)
  unfolding save
  save-results env c rsp t i d s =
      let c' : ControlInfo = record {
        version = add64 c.version 1;
        update_time = env.now_second;
        last_lock_id = none;
        last_lock_time = none;
      } in
      elim (Option-cases (db.put_both t i c' d s)) [
        | inl e ↦ inr (ground (arith, e))
        | inr (s', e) ↦ inl (ground (arith, e))
      ]

  fill-fields :
      (answer : Response) (h : DbHandle) (v l : ℕ)
      → answer.version ≡ some v
      → answer.lock_id ≡ some l
      → (or_zero (fill answer h).version ≡ v) × (or_zero (fill answer h).lock_id ≡ l)
  unfolding fill
  fill-fields answer h v l e e' = (ground (arith, e), ground (arith, e'))

  -- When the data server answers a query with a lock without an error, the version of the key is
  -- below 2^32, and until an update only requests come that may not release the lock, each before
  -- the lock has run out, as the update does too, then an update with the version and the lock id
  -- that `OnDBSvrQueryMessage` keeps of the answer is saved, or fails in the database.
  pub update-after_query :
      (env env' : Env) (t i : ℕ) (asked : Option ℕ) (d : DbData) (h : DbHandle) (s s' : S)
      → (on_query db env t i asked true s).0.result ≡ ok_result
      → ((c : ControlInfo)
          → db.read_control t i (on_query db env t i asked true s).1 ≡ found c
          → c.version < 2 ^ 32)
      → Quiet db t i env.random_lock env.now_milli (on_query db env t i asked true s).1 s'
      → leb env'.now_milli (add64 env.now_milli env'.lock_timeout) ≡ true
      → ((on_update db env' t i
            (or_zero (fill (on_query db env t i asked true s).0 h).version)
            (or_zero (fill (on_query db env t i asked true s).0 h).lock_id)
            d
            s').0.result
          ≡ ok_result)
        ⊎ ((on_update db env' t i
              (or_zero (fill (on_query db env t i asked true s).0 h).version)
              (or_zero (fill (on_query db env t i asked true s).0 h).lock_id)
              d
              s').0.result
            ≡ leveldb_failed)
  update-after_query env env' t i asked d h s s' ok small q fresh =
      let answer = (on_query db env t i asked true s).0 in
      let start = (on_query db env t i asked true s).1 in
      let g = on_query-Granted env t i asked s ok in
      let locked : IsLocked db t i env.random_lock env.now_milli start = record {
        info = g.info;
        read = g.read;
        lock = g.lock;
        since = g.since;
      } in
      let read = Quiet-read db laws t i env.random_lock env.now_milli start s' q locked ∙ g.read in
      let (version, lock) =
        fill-fields answer h (g.info.version % 2 ^ 32) env.random_lock g.version g.lock_id in
      let below = small g.info g.read in
      let v = or_zero (fill answer h).version in
      let l = or_zero (fill answer h).lock_id in
      let rsp : Response = record (reply t i ok_result) {
        version = some (g.info.version % 2 ^ 32);
      } in
      let same : g.info.version ≡ v = ground (arith, below, version) in
      let eq =
        on_update-accepted env' t i v l env.now_milli d s' g.info read same
          (g.lock ∙ ap some (sym lock)) g.since fresh in
      elim (save-results env' g.info rsp t i d s') [
        | inl e ↦ inl (ap (λ p. p.0.result) eq ∙ e)
        | inr e ↦ inr (ap (λ p. p.0.result) eq ∙ e)
      ]
