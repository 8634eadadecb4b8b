-- ===== src/Server/Handler/Unlocks.antt =====
-- The locks of a session and its one response: `OnDBSvrUpdate`, `OnSessionFinish` and
-- `SendResponse` of dev/svr/common/basic_handler.cpp.
use lsf.Prelude.{
  ℕ, zero, suc, ◌+◌, Bool, true, false, ◌&&◌, Option, none, some, List, [], ◌∷◌, ◌++◌, ◌==◌,
  if◌then◌else◌, ◌≡◌, arith, refl, ap, ◌∙◌,
}
use lsf.Server.Messages.{
  robot_data_type, update_req, unlock_notify, query_req, insert_req, delete_req, or_zero, RobotData,
}
use lsf.Server.Handler.{
  DbHandle, World, RspTypes, set_handles, Message, db_request, db_notify, client_response,
  server_response, send_all, unlock_message, unlock_messages, on_session_finish, send_response,
  respond, respond_server, mark_sent,
}
use lsf.Server.Handler.Handles.{handle_at, put_at}
use lsf.Server.Handler.Database
use lsf.Server.Handler.Database.{to_save, update_handle, send_update}

-- The messages with which a lock goes back to the data server: an update with a lock, and a notice.
abbrev pub releases_lock : ℕ → ℕ → ℕ → Message → Bool
releases_lock t i l (db_request s (update_req t' i' v l' d)) = (t == t') && (i == i') && (l == l')
releases_lock t i l (db_request s (query_req t' i' v n)) = false
releases_lock t i l (db_request s (insert_req t' i' d)) = false
releases_lock t i l (db_request s (delete_req t' i')) = false
releases_lock t i l (db_request s (unlock_notify t' i' l')) = (t == t') && (i == i') && (l == l')
releases_lock t i l (db_notify (unlock_notify t' i' l')) = (t == t') && (i == i') && (l == l')
releases_lock t i l (db_notify (update_req t' i' v l' d)) = false
releases_lock t i l (db_notify (query_req t' i' v n)) = false
releases_lock t i l (db_notify (insert_req t' i' d)) = false
releases_lock t i l (db_notify (delete_req t' i')) = false
releases_lock t i l (client_response type e) = false
releases_lock t i l (server_response type e) = false

unfoldable pub count_releases : ℕ → ℕ → ℕ → List Message → ℕ
count_releases t i l [] = 0
count_releases t i l (m ∷ ms) =
    if releases_lock t i l m then suc (count_releases t i l ms) else count_releases t i l ms

-- The handle has this lock of this key, and is to give it back.
abbrev pub holds_lock : ℕ → ℕ → ℕ → Option Bool → Option ℕ → ℕ → ℕ → Bool
holds_lock t i l none lock type id = false
holds_lock t i l (some false) lock type id = false
holds_lock t i l (some true) none type id = false
holds_lock t i l (some true) (some l') type id = (t == type) && (i == id) && (l == l')

abbrev pub holds : ℕ → ℕ → ℕ → DbHandle → Bool
holds t i l h = holds_lock t i l h.need_lock h.lock_id h.data_type h.id

unfoldable pub count_held : ℕ → ℕ → ℕ → List DbHandle → ℕ
count_held t i l [] = 0
count_held t i l (h ∷ hs) = if holds t i l h then suc (count_held t i l hs) else count_held t i l hs

count_releases-append :
    (t i l : ℕ) (xs ys : List Message)
    → count_releases t i l (xs ++ ys) ≡ count_releases t i l xs + count_releases t i l ys
unfolding count_releases
count_releases-append t i l [] ys = ground arith
count_releases-append t i l (x ∷ xs) ys = ground (arith, count_releases-append t i l xs ys)

count_releases-unlock_message :
    (t i l : ℕ) (need : Option Bool) (lock : Option ℕ) (type id : ℕ)
    → count_releases t i l (unlock_message need lock type id)
      ≡ (if holds_lock t i l need lock type id then 1 else 0)
unfolding count_releases unlock_message
count_releases-unlock_message t i l none lock type id = refl
count_releases-unlock_message t i l (some false) lock type id = refl
count_releases-unlock_message t i l (some true) none type id = refl
count_releases-unlock_message t i l (some true) (some l') type id = ground arith

count_releases-unlock_messages :
    (t i l : ℕ) (hs : List DbHandle)
    → count_releases t i l (unlock_messages hs) ≡ count_held t i l hs
unfolding count_releases unlock_messages count_held
count_releases-unlock_messages t i l [] = refl
count_releases-unlock_messages t i l (h ∷ hs) = ground (
  arith,
  count_releases-append t i l (unlock_message h.need_lock h.lock_id h.data_type h.id)
      (unlock_messages hs),
  count_releases-unlock_message t i l h.need_lock h.lock_id h.data_type h.id,
  count_releases-unlock_messages t i l hs,
)

-- A response releases nothing.
respond_server-releases :
    (t i l : ℕ) (req rsp : Option ℕ) (w : World)
    → count_releases t i l (respond_server req rsp w).sent ≡ count_releases t i l w.sent
unfolding respond_server send_all mark_sent count_releases
respond_server-releases t i l none rsp w = refl
respond_server-releases t i l (some req) none w = refl
respond_server-releases t i l (some req) (some rsp) w =
    ground (arith, count_releases-append t i l w.sent (server_response rsp w.session.ss_error ∷ []))

respond-releases :
    (t i l : ℕ) (req rsp : Option ℕ) (types : RspTypes) (w : World)
    → count_releases t i l (respond req rsp types w).sent ≡ count_releases t i l w.sent
unfolding respond send_all mark_sent count_releases
respond-releases t i l none rsp types w =
    respond_server-releases t i l w.session.ss_request types.ss_rsp_type w
respond-releases t i l (some req) none types w =
    respond_server-releases t i l w.session.ss_request types.ss_rsp_type w
respond-releases t i l (some req) (some rsp) types w =
    ground (arith, count_releases-append t i l w.sent (client_response rsp w.session.cs_error ∷ []))

send_response-releases :
    (types : RspTypes) (t i l : ℕ) (w : World)
    → count_releases t i l (send_response types w).sent ≡ count_releases t i l w.sent
unfolding send_response
send_response-releases types t i l w =
    ground (arith, respond-releases t i l w.session.cs_request types.cs_rsp_type types w)

-- For every key and lock id, `OnSessionFinish` adds to the messages that give the lock back as
-- many as there are handles that hold it and need it.
pub on_session_finish-releases :
    (types : RspTypes) (t i l : ℕ) (w : World)
    → count_releases t i l (on_session_finish types w).sent
      ≡ count_releases t i l w.sent + count_held t i l w.session.db_handles
unfolding on_session_finish send_all
on_session_finish-releases types t i l w =
    send_response-releases types t i l (send_all (unlock_messages w.session.db_handles) w)
    ∙ count_releases-append t i l w.sent (unlock_messages w.session.db_handles)
    ∙ ap (λ n. count_releases t i l w.sent + n)
        (count_releases-unlock_messages t i l w.session.db_handles)

pub send_response-once :
    (types : RspTypes) (w : World)
    → send_response types (send_response types w) ≡ send_response types w
unfolding send_response respond respond_server send_all mark_sent
send_response-once types w = ground arith

holds_lock-none :
    (t i l : ℕ) (need : Option Bool) (type id : ℕ) → holds_lock t i l need none type id ≡ false
holds_lock-none t i l none type id = refl
holds_lock-none t i l (some false) type id = refl
holds_lock-none t i l (some true) type id = refl

holds_lock-some :
    (t i l l' : ℕ) (need : Option Bool) (lock : Option ℕ) (type id : ℕ)
    → need ≡ some true
    → lock ≡ some l'
    → holds_lock t i l need lock type id ≡ ((t == type) && (i == id) && (l == l'))
holds_lock-some t i l l' need lock type id e f = ground (arith, e, f)

-- The handle of an index without its lock.
put_at-held :
    (t i l n : ℕ) (h : DbHandle) (hs : List DbHandle)
    → handle_at n hs ≡ some h
    → count_held t i l (put_at n (record h { lock_id = none }) hs)
        + (if holds t i l h then 1 else 0)
      ≡ count_held t i l hs
unfolding handle_at put_at count_held
put_at-held t i l n h [] e = absurd (ground (arith, e))
put_at-held t i l zero h (k ∷ hs) e =
    ground (arith, e, holds_lock-none t i l h.need_lock h.data_type h.id)
put_at-held t i l (suc n) h (k ∷ hs) e = ground (arith, put_at-held t i l n h hs e)

on_update-sent :
    (types : RspTypes) (w : World) (h : DbHandle) (r : RobotData)
    → handle_at w.session.db_process_index w.session.db_handles ≡ some h
    → (h.data_type == robot_data_type) ≡ true
    → to_save h.content.robot_data ≡ some r
    → ((Database.on_update types w).1.sent
        ≡ w.sent
          ++ (db_request w.session.base.session_id (
                update_req h.data_type h.id
                  (or_zero h.version)
                  (or_zero h.lock_id)
                  (record { robot_data = some r }))
              ∷ []))
      × ((Database.on_update types w).1.session.db_handles
          ≡ put_at w.session.db_process_index (record h { lock_id = none }) w.session.db_handles)
unfolding Database.on_update update_handle send_update set_handles send_all
on_update-sent types w h r there robot saved =
    (ground (arith, there, robot, saved), ground (arith, there, robot, saved))

-- When `OnDBSvrUpdate` sends an update for a handle that needs a lock and has one, then for every
-- key and lock id the messages sent that give the lock back and the handles that still hold it
-- are together as many as before.
pub on_update-releases :
    (types : RspTypes) (t i l l' : ℕ) (w : World) (h : DbHandle) (r : RobotData)
    → handle_at w.session.db_process_index w.session.db_handles ≡ some h
    → (h.data_type == robot_data_type) ≡ true
    → to_save h.content.robot_data ≡ some r
    → h.need_lock ≡ some true
    → h.lock_id ≡ some l'
    → count_releases t i l (Database.on_update types w).1.sent
        + count_held t i l (Database.on_update types w).1.session.db_handles
      ≡ count_releases t i l w.sent + count_held t i l w.session.db_handles
unfolding count_releases
on_update-releases types t i l l' w h r there robot saved need lock =
    let (sent, handles) = on_update-sent types w h r there robot saved in
    let m = db_request w.session.base.session_id (
      update_req h.data_type h.id (or_zero h.version) (or_zero h.lock_id)
        (record { robot_data = some r })) in
    ground (
      arith,
      ap (count_releases t i l) sent,
      ap (count_held t i l) handles,
      count_releases-append t i l w.sent (m ∷ []),
      put_at-held t i l w.session.db_process_index h w.session.db_handles there,
      holds_lock-some t i l l' h.need_lock h.lock_id h.data_type h.id need lock,
      ap or_zero lock,
    )

-- When the robot data of the handle are empty, `OnDBSvrUpdate` sends nothing, and the handle
-- holds its lock no longer.
pub on_update-loses_lock :
    (types : RspTypes) (w : World) (h : DbHandle)
    → handle_at w.session.db_process_index w.session.db_handles ≡ some h
    → (h.data_type == robot_data_type) ≡ true
    → to_save h.content.robot_data ≡ none
    → ((Database.on_update types w).1.sent ≡ w.sent)
      × ((t i l : ℕ)
          → count_held t i l (Database.on_update types w).1.session.db_handles
              + (if holds t i l h then 1 else 0)
            ≡ count_held t i l w.session.db_handles)
unfolding Database.on_update update_handle send_update set_handles
on_update-loses_lock types w h there robot empty = (
  ground (arith, there, robot, empty),
  λ t i l. ground (
    arith,
    there,
    robot,
    empty,
    put_at-held t i l w.session.db_process_index h w.session.db_handles there,
  ),
)
