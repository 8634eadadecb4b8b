-- ===== src/Server/Handler/Progress.antt =====
-- The answers to the queries of a session, `OnDBSvrQueryMessage` and `IsQueryReady` of
-- dev/svr/common/basic_handler.cpp: how many are still to come.
use lsf.Prelude.{
  ℕ, suc, Bool, true, false, not, List, [], ◌∷◌, ◌==◌, if◌then◌else◌, ◌≡◌, arith, refl, inl, inr,
  Bool-cases,
}
use lsf.Server.Messages.{robot_data_type, Response}
use lsf.Server.Handler.{
  dbsvr_query_success, dbsvr_query_wait, finish, DbHandle, World, RspTypes, set_handles, set_index,
  set_error, parse_error,
}
use lsf.Server.Handler.Handles.{
  is_ok, is_for, is_query_ready-pending, assign, fill, pending, has_handle,
}
use lsf.Server.Handler.Database
use lsf.Server.Handler.Database.{check_ready}

-- The first handle of this type and id has no answer yet.
unfoldable pub asked_for : ℕ → ℕ → List DbHandle → Bool
asked_for type id [] = false
asked_for type id (h ∷ hs) = if is_for type id h then not h.query_finish else asked_for type id hs

assign-pending :
    (rsp : Response) (hs : List DbHandle)
    → asked_for rsp.data_type rsp.id hs ≡ true
    → suc (pending (assign rsp hs).1) ≡ pending hs
unfolding assign fill pending asked_for
assign-pending rsp [] h = absurd (ground (arith, h))
assign-pending rsp (k ∷ hs) h = elim (Bool-cases (is_for rsp.data_type rsp.id k)) [
  | inl e ↦ ground (arith, e, h)
  | inr e ↦ ground (arith, e, assign-pending rsp hs (ground (arith, e, h)))
]

assign-known :
    (rsp : Response) (hs : List DbHandle)
    → (rsp.data_type == robot_data_type) ≡ true
    → (assign rsp hs).0 ≡ true
unfolding assign
assign-known rsp [] e = refl
assign-known rsp (k ∷ hs) e = ground (arith, e, assign-known rsp hs e)

assign-unknown :
    (rsp : Response) (hs : List DbHandle)
    → (rsp.data_type == robot_data_type) ≡ false
    → has_handle rsp.data_type rsp.id hs ≡ true
    → (assign rsp hs).0 ≡ false
unfolding assign
assign-unknown rsp [] e h = absurd (ground (arith, h))
assign-unknown rsp (k ∷ hs) e h = elim (Bool-cases (is_for rsp.data_type rsp.id k)) [
  | inl f ↦ ground (arith, e, f, h)
  | inr f ↦ ground (arith, f, assign-unknown rsp hs e (ground (arith, f, h)))
]

-- For an answer without an error, with robot data, to a handle that has none yet,
-- `OnDBSvrQueryMessage` leaves one pending handle less, and the query is over exactly if it was
-- the last one.
pub on_query_message-pending :
    (types : RspTypes) (w : World)
    → is_ok w.session.svr_response.query_rsp.result ≡ true
    → (w.session.svr_response.query_rsp.data_type == robot_data_type) ≡ true
    → asked_for w.session.svr_response.query_rsp.data_type w.session.svr_response.query_rsp.id
        w.session.db_handles
      ≡ true
    → (suc (pending (Database.on_query_message types w).1.session.db_handles)
        ≡ pending w.session.db_handles)
      × ((Database.on_query_message types w).0
          ≡ (if pending w.session.db_handles == 1 then dbsvr_query_success else dbsvr_query_wait))
unfolding Database.on_query_message check_ready set_handles set_index
on_query_message-pending types w ok known asked =
    let rsp = w.session.svr_response.query_rsp in
    let less = assign-pending rsp w.session.db_handles asked in
    let through = assign-known rsp w.session.db_handles known in
    let ready = is_query_ready-pending (assign rsp w.session.db_handles).1 in
    (ground (arith, ok, through, less), ground (arith, ok, through, less, ready))

-- For an answer without an error to a handle of the session whose type is not that of robot data,
-- `OnDBSvrQueryMessage` calls `SetErrorResponse` with the parse error and ends the session.
pub on_query_message-unknown :
    (types : RspTypes) (w : World)
    → is_ok w.session.svr_response.query_rsp.result ≡ true
    → (w.session.svr_response.query_rsp.data_type == robot_data_type) ≡ false
    → has_handle w.session.svr_response.query_rsp.data_type w.session.svr_response.query_rsp.id
        w.session.db_handles
      ≡ true
    → Database.on_query_message types w ≡ (
      finish,
      set_error types parse_error
          (set_handles (assign w.session.svr_response.query_rsp w.session.db_handles).1 w),
    )
unfolding Database.on_query_message
on_query_message-unknown types w ok unknown there =
    let stuck =
      assign-unknown w.session.svr_response.query_rsp w.session.db_handles unknown there in
    ground (arith, ok, stuck)
