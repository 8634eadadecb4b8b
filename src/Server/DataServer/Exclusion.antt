-- ===== src/Server/DataServer/Exclusion.antt =====
-- Who gets past a lock of the data server: `UpdateTimeoutLock`, the lock checks of the handlers
-- and `UnlockDataHandler`, over any sequence of requests.
use lsf.Prelude.{
  ℕ, ◌%◌, ◌^◌, Bool, true, false, ◌&&◌, Option, some, ◌==◌, leb, ◌≡◌, ◌≢◌, add64, arith,
}
use lsf.Server.Messages.{
  DbData, ControlInfo, ok_result, already_lock, Response, Request, query_req, update_req,
  insert_req, delete_req, unlock_notify,
}
use lsf.Server.DataServer.{
  found, LevelDb, Env, update_timeout_lock, reply, query_control, has_control, query_locked,
  on_query, on_update, on_insert, on_unlock, serve,
}
use lsf.Server.DataServer.Locks.{same_key, key_type, key_id}

pub update_timeout_lock-kept :
    (env : Env) (c : ControlInfo) (l time : ℕ)
    → c.last_lock_id ≡ some l
    → c.last_lock_time ≡ some time
    → leb env.now_milli (add64 time env.lock_timeout) ≡ true
    → update_timeout_lock env c ≡ c
unfolding update_timeout_lock
update_timeout_lock-kept env c l time hl ht hn = ground (arith, hl, ht, hn)

-- The requests that may release a lock of a key: a removal, and what names the id of the lock.
abbrev pub releases : ℕ → ℕ → ℕ → Request → Bool
releases t i l (query_req t' i' v n) = false
releases t i l (update_req t' i' v l' d) = same_key t' i' t i && (l' == l)
releases t i l (insert_req t' i' d) = false
releases t i l (delete_req t' i') = same_key t' i' t i
releases t i l (unlock_notify t' i' l') = same_key t' i' t i && (l' == l)

module _ {S : Type 0} (db : LevelDb S) where
  -- The key is locked: with the id of the lock and the time since when.
  pub record IsLocked (t i l time : ℕ) (s : S) : Type 0 where
    pub info : ControlInfo
    pub read : db.read_control t i s ≡ found info
    pub lock : info.last_lock_id ≡ some l
    pub since : info.last_lock_time ≡ some time

  pub query_control-found :
      (t i : ℕ) (c : ControlInfo) (s : S)
      → db.read_control t i s ≡ found c
      → query_control db t i s ≡ some c
  unfolding query_control
  query_control-found t i c s h = ground (arith, h)

  pub has_control-found :
      (t i : ℕ) (c : ControlInfo) (s : S)
      → db.read_control t i s ≡ found c
      → has_control db t i s ≡ true
  unfolding has_control
  has_control-found t i c s h = ground (arith, h)

  query_locked-refused :
      (env : Env) (asked : Option ℕ) (c : ControlInfo) (rsp : Response) (t i l : ℕ) (s : S)
      → c.last_lock_id ≡ some l
      → query_locked db env asked c rsp t i s ≡ (record rsp { result = already_lock }, s)
  unfolding query_locked
  query_locked-refused env asked c rsp t i l s h = ground (arith, h)

  -- While the lock of a key has not timed out, these are the handlers on this key.
  module _ (env : Env) (t i l time : ℕ) (s : S) (locked : IsLocked t i l time s)
      (fresh : leb env.now_milli (add64 time env.lock_timeout) ≡ true) where
    locked_info : update_timeout_lock env locked.info ≡ locked.info
    locked_info = update_timeout_lock-kept env locked.info l time locked.lock locked.since fresh

    locked_control : query_control db t i s ≡ some locked.info
    locked_control = query_control-found t i locked.info s locked.read

    on_query-locked : (asked : Option ℕ) (need : Bool) → (on_query db env t i asked need s).1 ≡ s
    unfolding on_query
    on_query-locked asked need = ground (
      arith,
      locked_control,
      locked_info,
      query_locked-refused env asked locked.info
          (record (reply t i ok_result) { version = some (locked.info.version % 2 ^ 32) }) t i l s
          locked.lock,
    )

    pub on_query-already_lock :
        (asked : Option ℕ) → (on_query db env t i asked true s).0.result ≡ already_lock
    unfolding on_query
    on_query-already_lock asked = ground (
      arith,
      locked_control,
      locked_info,
      query_locked-refused env asked locked.info
          (record (reply t i ok_result) { version = some (locked.info.version % 2 ^ 32) }) t i l s
          locked.lock,
    )

    on_update-locked :
        (v l' : ℕ) (d : DbData) → (l' == l) ≡ false → (on_update db env t i v l' d s).1 ≡ s
    unfolding on_update
    on_update-locked v l' d h = ground (arith, locked_control, locked_info, locked.lock, h)

    pub on_update-refused :
        (v l' : ℕ) (d : DbData)
        → (l' == l) ≡ false
        → (on_update db env t i v l' d s).0.result ≢ ok_result
    unfolding on_update
    on_update-refused v l' d h e = ground (arith, locked_control, locked_info, locked.lock, h, e)

    on_insert-locked : (d : DbData) → (on_insert db env t i d s).1 ≡ s
    unfolding on_insert
    on_insert-locked d = ground (arith, has_control-found t i locked.info s locked.read)

    on_unlock-locked : (l' : ℕ) → (l' == l) ≡ false → on_unlock db env t i l' s ≡ s
    unfolding on_unlock
    on_unlock-locked l' h = ground (arith, locked_control, locked_info, locked.lock, h)

  -- A request about the locked key leaves the store alone, unless it may release the lock.
  pub serve-locked :
      (env : Env) (l time : ℕ) (s : S) (r : Request)
      → IsLocked (key_type r) (key_id r) l time s
      → leb env.now_milli (add64 time env.lock_timeout) ≡ true
      → releases (key_type r) (key_id r) l r ≡ false
      → (serve db env r s).1 ≡ s
  unfolding serve
  serve-locked env l time s (query_req t i v n) locked fresh kept =
      on_query-locked env t i l time s locked fresh v n
  serve-locked env l time s (update_req t i v l' d) locked fresh kept =
      on_update-locked env t i l time s locked fresh v l' d (ground (arith, kept))
  serve-locked env l time s (insert_req t i d) locked fresh kept =
      on_insert-locked env t i l time s locked fresh d
  serve-locked env l time s (delete_req t i) locked fresh kept = ground (arith, kept)
  serve-locked env l time s (unlock_notify t i l') locked fresh kept =
      on_unlock-locked env t i l time s locked fresh l' (ground (arith, kept))
