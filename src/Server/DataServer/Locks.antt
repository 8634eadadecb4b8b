-- ===== src/Server/DataServer/Locks.antt =====
-- The locks of the data server: who may release one, and that nobody else gets past it.
use lsf.Prelude.{
  ℕ, ◌%◌, ◌^◌, Bool, false, ◌&&◌, Option, none, some, ◌==◌, ◌≡◌, add64, arith, inl, inr,
  Option-cases, ◌∙◌, ap,
}
use lsf.Server.Messages.{
  DbData, ControlInfo, ok_result, Response, Request, query_req, update_req, insert_req, delete_req,
  unlock_notify,
}
use lsf.Server.DataServer.{
  LevelDb, Env, update_timeout_lock, reply, query_control, query_locked, on_query, save, on_update,
  or_same, on_delete, on_insert, on_unlock, serve, Laws,
}

abbrev pub same_key : ℕ → ℕ → ℕ → ℕ → Bool
same_key t i t' i' = (t == t') && (i == i')

-- The key that a request is about.
abbrev pub key_type : Request → ℕ
key_type (query_req t i v n) = t
key_type (update_req t i v l d) = t
key_type (insert_req t i d) = t
key_type (delete_req t i) = t
key_type (unlock_notify t i l) = t

abbrev pub key_id : Request → ℕ
key_id (query_req t i v n) = i
key_id (update_req t i v l d) = i
key_id (insert_req t i d) = i
key_id (delete_req t i) = i
key_id (unlock_notify t i l) = i

module _ {S : Type 0} (db : LevelDb S) (laws : Laws db) where
  -- The control information of all other keys is as before.
  abbrev pub Frame : ℕ → ℕ → S → S → Type 0
  Frame t i s s' =
      (t' i' : ℕ) → same_key t i t' i' ≡ false → db.read_control t' i' s' ≡ db.read_control t' i' s

  put-Frame : (t i : ℕ) (c : ControlInfo) (s : S) → Frame t i s (or_same s (db.put_control t i c s))
  put-Frame t i c s t' i' h = elim (Option-cases (db.put_control t i c s)) [
    | inl e ↦ ap (λ o. db.read_control t' i' (or_same s o)) e
    | inr (s', e) ↦
        ap (λ o. db.read_control t' i' (or_same s o)) e
        ∙ ground (arith, laws.control-put_control t i t' i' c s s' e, h)
  ]

  query_locked-Frame :
      (env : Env) (asked : Option ℕ) (c : ControlInfo) (rsp : Response) (t i : ℕ) (s : S)
      → Frame t i s (query_locked db env asked c rsp t i s).1
  unfolding query_locked
  query_locked-Frame env asked c rsp t i s t' i' h =
      let c' : ControlInfo = record c {
        last_lock_id = some env.random_lock;
        last_lock_time = some env.now_milli;
      } in
      elim (Option-cases (db.put_control t i c' s)) [
        | inl e ↦ ground (arith, e)
        | inr (s', e) ↦ ground (arith, e, laws.control-put_control t i t' i' c' s s' e, h)
      ]

  on_query-Frame :
      (env : Env) (t i : ℕ) (asked : Option ℕ) (need : Bool) (s : S)
      → Frame t i s (on_query db env t i asked need s).1
  unfolding on_query
  on_query-Frame env t i asked need s t' i' h = elim (Option-cases (query_control db t i s)) [
    | inl e ↦ ground (arith, e)
    | inr (info, e) ↦
        let c = update_timeout_lock env info in
        let rsp : Response = record (reply t i ok_result) { version = some (c.version % 2 ^ 32) } in
        ground (arith, e, query_locked-Frame env asked c rsp t i s t' i' h)
  ]

  save-Frame :
      (env : Env) (c : ControlInfo) (rsp : Response) (t i : ℕ) (d : DbData) (s : S)
      → Frame t i s (save db env c rsp t i d s).1
  unfolding save
  save-Frame env c rsp t i d s t' i' h =
      let c' : ControlInfo = record {
        version = add64 c.version 1;
        update_time = env.now_second;
        last_lock_id = none;
        last_lock_time = none;
      } in
      elim (Option-cases (db.put_both t i c' d s)) [
        | inl e ↦ ground (arith, e)
        | inr (s', e) ↦ ground (arith, e, laws.control-put_both t i t' i' c' d s s' e, h)
      ]

  on_update-Frame :
      (env : Env) (t i version lock : ℕ) (d : DbData) (s : S)
      → Frame t i s (on_update db env t i version lock d s).1
  unfolding on_update
  on_update-Frame env t i version lock d s t' i' h = elim (Option-cases (query_control db t i s)) [
    | inl e ↦ ground (arith, e)
    | inr (info, e) ↦
        let c = update_timeout_lock env info in
        let rsp : Response = record (reply t i ok_result) { version = some (c.version % 2 ^ 32) } in
        ground (arith, e, save-Frame env c rsp t i d s t' i' h)
  ]

  on_insert-Frame :
      (env : Env) (t i : ℕ) (d : DbData) (s : S) → Frame t i s (on_insert db env t i d s).1
  unfolding on_insert
  on_insert-Frame env t i d s t' i' h =
      let c' : ControlInfo = record {
        version = 1;
        update_time = env.now_second;
        last_lock_id = none;
        last_lock_time = none;
      } in
      elim (Option-cases (db.put_both t i c' d s)) [
        | inl e ↦ ground (arith, e)
        | inr (s', e) ↦ ground (arith, e, laws.control-put_both t i t' i' c' d s s' e, h)
      ]

  delete_control-Frame : (t i : ℕ) (s : S) → Frame t i s (or_same s (db.delete_control t i s))
  delete_control-Frame t i s t' i' h = elim (Option-cases (db.delete_control t i s)) [
    | inl e ↦ ap (λ o. db.read_control t' i' (or_same s o)) e
    | inr (s', e) ↦
        ap (λ o. db.read_control t' i' (or_same s o)) e
        ∙ ground (arith, laws.control-delete_control t i t' i' s s' e, h)
  ]

  delete_data-control :
      (t i t' i' : ℕ) (s : S)
      → db.read_control t' i' (or_same s (db.delete_data t i s)) ≡ db.read_control t' i' s
  delete_data-control t i t' i' s = elim (Option-cases (db.delete_data t i s)) [
    | inl e ↦ ap (λ o. db.read_control t' i' (or_same s o)) e
    | inr (s', e) ↦
        ap (λ o. db.read_control t' i' (or_same s o)) e ∙ laws.control-delete_data t i t' i' s s' e
  ]

  on_delete-Frame : (t i : ℕ) (s : S) → Frame t i s (on_delete db t i s).1
  unfolding on_delete
  on_delete-Frame t i s t' i' h =
      delete_data-control t i t' i' (or_same s (db.delete_control t i s))
      ∙ delete_control-Frame t i s t' i' h

  on_unlock-Frame : (env : Env) (t i lock : ℕ) (s : S) → Frame t i s (on_unlock db env t i lock s)
  unfolding on_unlock
  on_unlock-Frame env t i lock s t' i' h = elim (Option-cases (query_control db t i s)) [
    | inl e ↦ ground (arith, e)
    | inr (info, e) ↦
        let c = update_timeout_lock env info in
        ground (
          arith,
          e,
          put-Frame t i (record c { last_lock_id = none; last_lock_time = none }) s t' i' h,
        )
  ]

  -- No request changes the control information of a key other than its own.
  pub serve-Frame :
      (env : Env) (r : Request) (s : S) → Frame (key_type r) (key_id r) s (serve db env r s).1
  unfolding serve
  serve-Frame env (query_req t i v n) s = on_query-Frame env t i v n s
  serve-Frame env (update_req t i v l d) s = on_update-Frame env t i v l d s
  serve-Frame env (insert_req t i d) s = on_insert-Frame env t i d s
  serve-Frame env (delete_req t i) s = on_delete-Frame t i s
  serve-Frame env (unlock_notify t i l) s = on_unlock-Frame env t i l s
