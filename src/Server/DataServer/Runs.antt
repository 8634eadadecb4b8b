-- ===== src/Server/DataServer/Runs.antt =====
-- Sequences of requests to the data server while a lock is held, for `QueryDataHandler` and
-- `UpdateDataHandler` of dev/svr/datasvrd/handler_common.cpp.
use lsf.Prelude.{
  ℕ, ◌%◌, ◌^◌, true, false, Option, none, some, ◌==◌, leb, ◌≡◌, ◌≢◌, add64, arith, refl, inl, inr,
  Bool-cases, Option-cases, ◌∙◌, sym, ap, subst, eq_of_==, ==_refl,
}
use lsf.Server.Messages.{DbData, ControlInfo, ok_result, already_lock, Response, Request}
use lsf.Server.DataServer.{
  found, LevelDb, Env, update_timeout_lock, reply, query_control, query_locked, on_query, on_update,
  serve, Laws,
}
use lsf.Server.DataServer.Locks.{same_key, serve-Frame, key_type, key_id}
use lsf.Server.DataServer.Exclusion.{
  IsLocked, releases, serve-locked, on_query-already_lock, on_update-refused,
}

module _ {S : Type 0} (db : LevelDb S) where
  -- Requests, each before the lock of that time has run out, none of which may release it.
  pub data Quiet (t i l time : ℕ) (s : S) : S → Type 0 where
    stay : Quiet t i l time s s
    next :
        (s' : S)
        → Quiet t i l time s s'
        → (env : Env) (r : Request) → leb env.now_milli (add64 time env.lock_timeout) ≡ true
        → releases t i l r ≡ false
        → Quiet t i l time s (serve db env r s').1

module _ {S : Type 0} (db : LevelDb S) (laws : Laws db) where
  read-IsLocked :
      (t i l time : ℕ) (s s' : S)
      → db.read_control t i s' ≡ db.read_control t i s
      → IsLocked db t i l time s
      → IsLocked db t i l time s'
  read-IsLocked t i l time s s' e locked = record {
    info = locked.info;
    read = e ∙ locked.read;
    lock = locked.lock;
    since = locked.since;
  }

  serve-read :
      (env : Env) (t i l time : ℕ) (s : S) (r : Request)
      → IsLocked db t i l time s
      → leb env.now_milli (add64 time env.lock_timeout) ≡ true
      → releases t i l r ≡ false
      → db.read_control t i (serve db env r s).1 ≡ db.read_control t i s
  serve-read env t i l time s r locked fresh kept =
      elim (Bool-cases (same_key (key_type r) (key_id r) t i)) [
        | inl h ↦
            let p = eq_of_== (key_type r) t (ground (arith, h)) in
            let q = eq_of_== (key_id r) i (ground (arith, h)) in
            let own =
              subst (λ x. IsLocked db x (key_id r) l time s) (sym p)
                (subst (λ y. IsLocked db t y l time s) (sym q) locked) in
            let free =
              subst (λ x. releases x (key_id r) l r ≡ false) (sym p)
                (subst (λ y. releases t y l r ≡ false) (sym q) kept) in
            ap (db.read_control t i) (serve-locked db env l time s r own fresh free)
        | inr h ↦ serve-Frame db laws env r s t i h
      ]

  pub Quiet-read :
      (t i l time : ℕ) (s s' : S)
      → Quiet db t i l time s s'
      → IsLocked db t i l time s
      → db.read_control t i s' ≡ db.read_control t i s
  Quiet-read t i l time s _ stay locked = refl
  Quiet-read t i l time s _ (next s' q env r fresh kept) locked =
      let before = Quiet-read t i l time s s' q locked in
      serve-read env t i l time s' r (read-IsLocked t i l time s s' before locked) fresh kept
      ∙ before

  pub Quiet-IsLocked :
      (t i l time : ℕ) (s s' : S)
      → Quiet db t i l time s s'
      → IsLocked db t i l time s
      → IsLocked db t i l time s'
  Quiet-IsLocked t i l time s s' q locked =
      read-IsLocked t i l time s s' (Quiet-read t i l time s s' q locked) locked

  pub query_locked-read :
      (env : Env) (asked : Option ℕ) (c : ControlInfo) (rsp : Response) (t i : ℕ) (s : S)
      → (query_locked db env asked c rsp t i s).0.result ≡ ok_result
      → db.read_control t i (query_locked db env asked c rsp t i s).1
        ≡ found
            (record c { last_lock_id = some env.random_lock; last_lock_time = some env.now_milli })
  unfolding query_locked
  query_locked-read env asked c rsp t i s h =
      let c' : ControlInfo = record c {
        last_lock_id = some env.random_lock;
        last_lock_time = some env.now_milli;
      } in
      elim (Option-cases (db.put_control t i c' s)) [
        | inl e ↦ ground (arith, e, h)
        | inr (s', e) ↦
            ground (arith, e, h, laws.control-put_control t i t i c' s s' e, ==_refl t, ==_refl i)
      ]

  pub on_query-query_locked :
      (env : Env) (t i : ℕ) (asked : Option ℕ) (info : ControlInfo) (s : S)
      → query_control db t i s ≡ some info
      → on_query db env t i asked true s ≡ (
          let c = update_timeout_lock env info in
          query_locked db env asked c
            (record (reply t i ok_result) { version = some (c.version % 2 ^ 32) })
            t
            i
            s)
  unfolding on_query
  on_query-query_locked env t i asked info s e = ground (arith, e)

  pub on_query-unread :
      (env : Env) (t i : ℕ) (asked : Option ℕ) (s : S)
      → query_control db t i s ≡ none
      → (on_query db env t i asked true s).0.result ≢ ok_result
  unfolding on_query
  on_query-unread env t i asked s e h = ground (arith, e, h)

  -- A query with a lock that is answered without an error holds the lock afterwards.
  pub on_query-IsLocked :
      (env : Env) (t i : ℕ) (asked : Option ℕ) (s : S)
      → (on_query db env t i asked true s).0.result ≡ ok_result
      → IsLocked db t i env.random_lock env.now_milli (on_query db env t i asked true s).1
  on_query-IsLocked env t i asked s h =
      elim (Option-cases (query_control db t i s))
        as (λ _.
          IsLocked db t i env.random_lock env.now_milli (on_query db env t i asked true s).1) [
            | inl e ↦ absurd (on_query-unread env t i asked s e h)
            | inr (info, e) ↦
                let eq = on_query-query_locked env t i asked info s e in
                let c = update_timeout_lock env info in
                let rsp : Response = record (reply t i ok_result) {
                  version = some (c.version % 2 ^ 32);
                } in
                record {
                  info = record c {
                    last_lock_id = some env.random_lock;
                    last_lock_time = some env.now_milli;
                  };
                  read =
                      ap (λ p. db.read_control t i p.1) eq
                      ∙ query_locked-read env asked c rsp t i s (sym (ap (λ p. p.0.result) eq) ∙ h);
                  lock = refl;
                  since = refl;
                }
          ]

  -- After a query with a lock that is answered without an error, and any requests that may not
  -- release the lock, each before the lock has run out, a second query with a lock at such a time
  -- is answered that there is a lock already.
  pub query-exclusive :
      (env env' : Env) (t i : ℕ) (asked asked' : Option ℕ) (s s' : S)
      → (on_query db env t i asked true s).0.result ≡ ok_result
      → Quiet db t i env.random_lock env.now_milli (on_query db env t i asked true s).1 s'
      → leb env'.now_milli (add64 env.now_milli env'.lock_timeout) ≡ true
      → (on_query db env' t i asked' true s').0.result ≡ already_lock
  query-exclusive env env' t i asked asked' s s' h q fresh =
      let start = (on_query db env t i asked true s).1 in
      let locked =
        Quiet-IsLocked t i env.random_lock env.now_milli start s' q
          (on_query-IsLocked env t i asked s h) in
      on_query-already_lock db env' t i env.random_lock env.now_milli s' locked fresh asked'

  -- After a query with a lock that is answered without an error, and any requests that may not
  -- release the lock, each before the lock has run out, an update with another lock id at such a
  -- time is not answered without an error.
  pub update-exclusive :
      (env env' : Env) (t i v l : ℕ) (asked : Option ℕ) (d : DbData) (s s' : S)
      → (on_query db env t i asked true s).0.result ≡ ok_result
      → Quiet db t i env.random_lock env.now_milli (on_query db env t i asked true s).1 s'
      → leb env'.now_milli (add64 env.now_milli env'.lock_timeout) ≡ true
      → (l == env.random_lock) ≡ false
      → (on_update db env' t i v l d s').0.result ≢ ok_result
  update-exclusive env env' t i v l asked d s s' h q fresh other =
      let start = (on_query db env t i asked true s).1 in
      let locked =
        Quiet-IsLocked t i env.random_lock env.now_milli start s' q
          (on_query-IsLocked env t i asked s h) in
      on_update-refused db env' t i env.random_lock env.now_milli s' locked fresh v l d other
