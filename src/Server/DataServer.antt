-- ===== src/Server/DataServer.antt =====
-- The handlers of dev/svr/datasvrd/handler_common.cpp. The store is LevelDB behind `LevelDBManager`: a
-- parameter, with what its documentation says of reads after writes as laws.
pub mod Locks
pub mod Exclusion
pub mod Runs
pub mod Updates
pub mod Versions
pub mod Writes
use lsf.Prelude.{
  ℕ, ◌+◌, ◌%◌, ◌^◌, Bool, true, false, ◌&&◌, not, Option, none, some, ◌==◌, leb, if◌then◌else◌, ◌≡◌,
  add64,
}
use lsf.Server.Messages.{
  DbData, no_data, ControlInfo, Result, ok_result, version_not_match, leveldb_failed, already_lock,
  lock_not_match, already_has_data, or_zero, Response, Request, query_req, update_req, insert_req,
  delete_req, unlock_notify,
}

-- The status of a read: a value, bytes that the parser refuses, `IsNotFound`, or any other error.
pub data Read (A : Type 0) : Type 0 where
  found : A → Read A
  unparsed : Read A
  not_found : Read A
  failed : Read A

-- The database, with a key made of a type and an id for control information and one for data; a
-- write gives none when its status is not ok.
pub record LevelDb (S : Type 0) : Type 0 where
  pub read_control : ℕ → ℕ → S → Read ControlInfo
  pub read_data : ℕ → ℕ → S → Read DbData
  pub put_control : ℕ → ℕ → ControlInfo → S → Option S
  pub put_both : ℕ → ℕ → ControlInfo → DbData → S → Option S
  pub delete_control : ℕ → ℕ → S → Option S
  pub delete_data : ℕ → ℕ → S → Option S

-- What a request reads of its surroundings: the clock, `db_lock_timeout` and `GetRand`.
pub record Env : Type 0 where
  pub now_milli : ℕ
  pub now_second : ℕ
  pub lock_timeout : ℕ
  pub random_lock : ℕ

-- The default value of an optional message.
abbrev pub no_control : ControlInfo
no_control = record { version = 0; update_time = 0; last_lock_id = none; last_lock_time = none }

-- `UpdateTimeoutLock`.
unfoldable pub update_timeout_lock : Env → ControlInfo → ControlInfo
update_timeout_lock env c = elim c.last_lock_id [
  | none ↦ c
  | some _ ↦ elim c.last_lock_time [
    | none ↦ c
    | some time ↦
        if leb env.now_milli (add64 time env.lock_timeout)
        then c
        else record c { last_lock_id = none; last_lock_time = none }
  ]
]

abbrev pub reply : ℕ → ℕ → Result → Response
reply type id r = record {
  result = r;
  data_type = type;
  id = id;
  version = none;
  content = no_data;
  lock_id = none;
}

-- A write whose status is not looked at.
abbrev pub or_same : {S : Type 0} → S → Option S → S
or_same s none = s
or_same s (some s') = s'

module _ {S : Type 0} (db : LevelDb S) where
  -- `LevelDBManager::Query` of a message: what is not there reads as the default.
  unfoldable pub query_control : ℕ → ℕ → S → Option ControlInfo
  query_control type id s = elim (db.read_control type id s) [
    | found c ↦ some c
    | not_found ↦ some no_control
    | unparsed ↦ none
    | failed ↦ none
  ]

  unfoldable pub query_data : ℕ → ℕ → S → Option DbData
  query_data type id s = elim (db.read_data type id s) [
    | found d ↦ some d
    | not_found ↦ some no_data
    | unparsed ↦ none
    | failed ↦ none
  ]

  -- `LevelDBManager::Has`.
  unfoldable pub has_control : ℕ → ℕ → S → Bool
  has_control type id s = elim (db.read_control type id s) [
    | found _ ↦ true
    | unparsed ↦ true
    | not_found ↦ false
    | failed ↦ false
  ]

  -- The end of a query: the data is read, unless the version that the client has is the newest.
  unfoldable pub query_content : Option ℕ → ℕ → Response → ℕ → ℕ → S → Response
  query_content asked current rsp type id s =
      let read = elim (query_data type id s) as (λ _. Response) [
        | none ↦ record rsp { result = leveldb_failed }
        | some d ↦ record rsp { content = d }
      ] in
      elim asked [
        | none ↦ read
        | some v ↦ if v == current then record rsp { result = ok_result } else read
      ]

  -- A query with a lock: refused if there is one, and otherwise saved with the control information.
  unfoldable pub query_locked : Env → Option ℕ → ControlInfo → Response → ℕ → ℕ → S → Response × S
  query_locked env asked c rsp type id s =
      let lock = env.random_lock in
      let c' : ControlInfo = record c {
        last_lock_id = some lock;
        last_lock_time = some env.now_milli;
      } in
      let rsp' : Response = record rsp { lock_id = some lock } in
      elim c.last_lock_id [
        | some _ ↦ (record rsp { result = already_lock }, s)
        | none ↦ elim (db.put_control type id c' s) [
          | none ↦ (record rsp' { result = leveldb_failed }, s)
          | some s' ↦ (query_content asked c.version rsp' type id s', s')
        ]
      ]

  -- `QueryDataHandler::OnServerRequest`. The version of the answer has 32 bits.
  unfoldable pub on_query : Env → ℕ → ℕ → Option ℕ → Bool → S → Response × S
  on_query env type id asked need_lock s = elim (query_control type id s) [
    | none ↦ (reply type id leveldb_failed, s)
    | some info ↦
        let c = update_timeout_lock env info in
        let rsp : Response = record (reply type id ok_result) {
          version = some (c.version % 2 ^ 32);
        } in
        if need_lock
        then query_locked env asked c rsp type id s
        else (query_content asked c.version rsp type id s, s)
  ]

  -- The batch of an update.
  unfoldable pub save : Env → ControlInfo → Response → ℕ → ℕ → DbData → S → Response × S
  save env c rsp type id d s =
      let c' : ControlInfo = record {
        version = add64 c.version 1;
        update_time = env.now_second;
        last_lock_id = none;
        last_lock_time = none;
      } in
      elim (db.put_both type id c' d s) [
        | none ↦ (record rsp { result = leveldb_failed }, s)
        | some s' ↦ (rsp, s')
      ]

  -- `UpdateDataHandler::OnServerRequest`.
  unfoldable pub on_update : Env → ℕ → ℕ → ℕ → ℕ → DbData → S → Response × S
  on_update env type id version lock d s = elim (query_control type id s) [
    | none ↦ (reply type id leveldb_failed, s)
    | some info ↦
        let c = update_timeout_lock env info in
        let rsp : Response = record (reply type id ok_result) {
          version = some (c.version % 2 ^ 32);
        } in
        if not (version == c.version)
        then (record rsp { result = version_not_match }, s)
        else if not (lock == or_zero c.last_lock_id)
        then (record rsp { result = lock_not_match }, s)
        else save env c rsp type id d s
  ]

  -- `DeleteDataHandler::OnServerRequest`; a failure of either removal is not looked at.
  unfoldable pub on_delete : ℕ → ℕ → S → Response × S
  on_delete type id s =
      let s' = or_same s (db.delete_control type id s) in
      (reply type id ok_result, or_same s' (db.delete_data type id s'))

  -- `InsertDataHandler::OnServerRequest`.
  unfoldable pub on_insert : Env → ℕ → ℕ → DbData → S → Response × S
  on_insert env type id d s =
      let c : ControlInfo = record {
        version = 1;
        update_time = env.now_second;
        last_lock_id = none;
        last_lock_time = none;
      } in
      if has_control type id s
      then (reply type id already_has_data, s)
      else elim (db.put_both type id c d s) [
        | none ↦ (reply type id leveldb_failed, s)
        | some s' ↦ (reply type id ok_result, s')
      ]

  -- `UnlockDataHandler::OnServerRequest`.
  unfoldable pub on_unlock : Env → ℕ → ℕ → ℕ → S → S
  on_unlock env type id lock s = elim (query_control type id s) [
    | none ↦ s
    | some info ↦
        let c = update_timeout_lock env info in
        if not (or_zero c.last_lock_id == lock)
        then s
        else or_same s
            (db.put_control type id (record c { last_lock_id = none; last_lock_time = none }) s)
  ]

  -- One request; a notify has no answer.
  unfoldable pub serve : Env → Request → S → Option Response × S
  serve env (query_req type id version need_lock) s =
      let (rsp, s') = on_query env type id version need_lock s in (some rsp, s')
  serve env (update_req type id version lock d) s =
      let (rsp, s') = on_update env type id version lock d s in (some rsp, s')
  serve env (insert_req type id d) s = let (rsp, s') = on_insert env type id d s in (some rsp, s')
  serve env (delete_req type id) s = let (rsp, s') = on_delete type id s in (some rsp, s')
  serve env (unlock_notify type id lock) s = (none, on_unlock env type id lock s)

  -- The documented behaviour: a read gives what the last write of its key left, and the writes of
  -- other keys change nothing. A read of a key that was written is taken to succeed, so that a read
  -- that fails then, and is answered as a failure of the database, is left out; a read of a key that
  -- was not written may fail or not.
  pub record Laws : Type 0 where
    pub control-put_control :
        (t i t' i' : ℕ) (c : ControlInfo) (s s' : S)
        → db.put_control t i c s ≡ some s'
        → db.read_control t' i' s'
          ≡ (if (t == t') && (i == i') then found c else db.read_control t' i' s)
    pub data-put_control :
        (t i t' i' : ℕ) (c : ControlInfo) (s s' : S)
        → db.put_control t i c s ≡ some s'
        → db.read_data t' i' s' ≡ db.read_data t' i' s
    pub control-put_both :
        (t i t' i' : ℕ) (c : ControlInfo) (d : DbData) (s s' : S)
        → db.put_both t i c d s ≡ some s'
        → db.read_control t' i' s'
          ≡ (if (t == t') && (i == i') then found c else db.read_control t' i' s)
    pub data-put_both :
        (t i t' i' : ℕ) (c : ControlInfo) (d : DbData) (s s' : S)
        → db.put_both t i c d s ≡ some s'
        → db.read_data t' i' s' ≡ (if (t == t') && (i == i') then found d else db.read_data t' i' s)
    pub control-delete_control :
        (t i t' i' : ℕ) (s s' : S)
        → db.delete_control t i s ≡ some s'
        → db.read_control t' i' s'
          ≡ (if (t == t') && (i == i') then not_found else db.read_control t' i' s)
    pub control-delete_data :
        (t i t' i' : ℕ) (s s' : S)
        → db.delete_data t i s ≡ some s'
        → db.read_control t' i' s' ≡ db.read_control t' i' s
