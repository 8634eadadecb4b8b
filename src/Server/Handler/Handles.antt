-- ===== src/Server/Handler/Handles.antt =====
-- The data handles of a session in dev/svr/common/basic_handler.cpp: `AddQueryData` and the like,
-- `IsQueryReady`, `QueryData` and what an answer writes to a handle.
use lsf.Prelude.{
  ℕ, zero, suc, Bool, true, false, not, ◌&&◌, Option, none, some, List, [], ◌∷◌, ◌++◌, length, leb,
  ◌==◌, if◌then◌else◌, ◌≡◌, arith, refl, ◌⊎◌, inl, inr,
}
use lsf.Server.Messages.{
  DbData, no_data, no_robot, RobotData, robot_data_type, Response, Result, ok_result,
  version_not_match, leveldb_failed, already_lock, lock_not_match, already_has_data, query_req,
}
use lsf.Server.Handler.{DbHandle, Message, db_request}

-- `RESULT_OK`.
abbrev pub is_ok : Result → Bool
is_ok ok_result = true
is_ok version_not_match = false
is_ok leveldb_failed = false
is_ok already_lock = false
is_ok lock_not_match = false
is_ok already_has_data = false

abbrev pub or_false : Option Bool → Bool
or_false none = false
or_false (some b) = b

abbrev pub or_no_robot : Option RobotData → RobotData
or_no_robot none = no_robot
or_no_robot (some r) = r

abbrev pub or_old : Option ℕ → Option ℕ → Option ℕ
or_old old none = old
or_old old (some n) = some n

-- A handle as it is added.
abbrev pub new_handle : ℕ → ℕ → DbHandle
new_handle type id = record {
  data_type = type;
  id = id;
  content = no_data;
  need_lock = none;
  query_finish = false;
  version = none;
  lock_id = none;
}

abbrev pub is_for : ℕ → ℕ → DbHandle → Bool
is_for type id h = (h.data_type == type) && (h.id == id)

abbrev pub has_handle : ℕ → ℕ → List DbHandle → Bool
has_handle type id [] = false
has_handle type id (h ∷ hs) = if is_for type id h then true else has_handle type id hs

-- `AddQueryData` and `AddDeleteData`.
unfoldable pub add_query_data : ℕ → ℕ → List DbHandle → List DbHandle
add_query_data type id hs = if has_handle type id hs then hs else hs ++ (new_handle type id ∷ [])

unfoldable pub add_delete_data : ℕ → ℕ → List DbHandle → List DbHandle
add_delete_data type id hs = if has_handle type id hs then hs else hs ++ (new_handle type id ∷ [])

abbrev pub index_of : ℕ → ℕ → List DbHandle → ℕ
index_of type id [] = 0
index_of type id (h ∷ hs) = if is_for type id h then 0 else suc (index_of type id hs)

-- `AddInsertData`, with the index of the handle for the pointer to its data.
unfoldable pub add_insert_data : ℕ → ℕ → List DbHandle → ℕ × List DbHandle
add_insert_data type id hs =
    (index_of type id hs, if has_handle type id hs then hs else hs ++ (new_handle type id ∷ []))

unfoldable pub lock_last : List DbHandle → List DbHandle
lock_last [] = []
lock_last (h ∷ []) = record h { need_lock = some true } ∷ []
lock_last (h ∷ k ∷ hs) = h ∷ lock_last (k ∷ hs)

-- `AddQueryDataAndLock`: the last handle is the one that gets the lock.
unfoldable pub add_query_data_and_lock : ℕ → ℕ → List DbHandle → List DbHandle
add_query_data_and_lock type id hs = lock_last (add_query_data type id hs)

-- `IsQueryReady`.
unfoldable pub is_query_ready : List DbHandle → Bool
is_query_ready [] = true
is_query_ready (h ∷ hs) = if not h.query_finish then false else is_query_ready hs

-- The message of `QueryData`; an absent `need_lock` is read as false.
unfoldable pub query_message : ℕ → DbHandle → Message
query_message session_id h =
    db_request session_id (query_req h.data_type h.id h.version (or_false h.need_lock))

-- What `OnDBSvrQueryMessage` writes to the handle of an answer; only the robot data are known.
unfoldable pub fill_content : Response → DbHandle → DbData
fill_content rsp h =
    if rsp.data_type == robot_data_type
    then record {
      robot_data = some (record (or_no_robot rsp.content.robot_data) { uid = some h.id });
    }
    else h.content

unfoldable pub fill : Response → DbHandle → DbHandle
fill rsp h = record h {
  query_finish = true;
  lock_id = or_old h.lock_id rsp.lock_id;
  version = or_old h.version rsp.version;
  content = fill_content rsp h;
}

-- The loop over the handles: whether it went through without an unknown type, and the handles.
unfoldable pub assign : Response → List DbHandle → Bool × List DbHandle
assign rsp [] = (true, [])
assign rsp (h ∷ hs) =
    let rest = assign rsp hs in
    if is_for rsp.data_type rsp.id h
    then (rsp.data_type == robot_data_type, fill rsp h ∷ hs)
    else (rest.0, h ∷ rest.1)

-- `db_handles(i)`; none is out of range.
unfoldable pub handle_at : ℕ → List DbHandle → Option DbHandle
handle_at i [] = none
handle_at zero (h ∷ hs) = some h
handle_at (suc i) (h ∷ hs) = handle_at i hs

unfoldable pub put_at : ℕ → DbHandle → List DbHandle → List DbHandle
put_at i k [] = []
put_at zero k (h ∷ hs) = k ∷ hs
put_at (suc i) k (h ∷ hs) = h ∷ put_at i k hs

-- The handles that have no answer yet.
unfoldable pub pending : List DbHandle → ℕ
pending [] = 0
pending (h ∷ hs) = if h.query_finish then pending hs else suc (pending hs)

-- All handles are ready exactly when none is pending.
pub is_query_ready-pending : (hs : List DbHandle) → is_query_ready hs ≡ (pending hs == 0)
unfolding is_query_ready pending
is_query_ready-pending [] = refl
is_query_ready-pending (h ∷ hs) = ground (arith, is_query_ready-pending hs)

pub length-assign : (rsp : Response) (hs : List DbHandle) → length (assign rsp hs).1 ≡ length hs
unfolding assign
length-assign rsp [] = refl
length-assign rsp (h ∷ hs) = ground (arith, length-assign rsp hs)

pub length-put_at : (i : ℕ) (k : DbHandle) (hs : List DbHandle) → length (put_at i k hs) ≡ length hs
unfolding put_at
length-put_at i k [] = refl
length-put_at zero k (h ∷ hs) = refl
length-put_at (suc i) k (h ∷ hs) = ground (arith, length-put_at i k hs)

pub length-lock_last : (hs : List DbHandle) → length (lock_last hs) ≡ length hs
unfolding lock_last
length-lock_last [] = refl
length-lock_last (h ∷ []) = refl
length-lock_last (h ∷ k ∷ hs) = ground (arith, length-lock_last (k ∷ hs))

pub handle_at-range :
    (i : ℕ) (hs : List DbHandle)
    → (leb (length hs) i ≡ true) × (handle_at i hs ≡ none)
      ⊎ (leb (length hs) i ≡ false) × ((h : DbHandle) × (handle_at i hs ≡ some h))
unfolding handle_at
handle_at-range i [] = inl (ground arith, refl)
handle_at-range zero (h ∷ hs) = inr (ground arith, (h, refl))
handle_at-range (suc i) (h ∷ hs) = elim (handle_at-range i hs) [
  | inl (big, e) ↦ inl (ground (arith, big), e)
  | inr (small, e) ↦ inr (ground (arith, small), e)
]
