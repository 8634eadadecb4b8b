-- ===== src/Server/Handler/Machine/Callbacks.antt =====
-- The callbacks of `BasicHandler` in dev/svr/common/basic_handler.cpp that ask the data server or look at
-- its answers lower the measure.
use lsf.Prelude.{
  ℕ, suc, ◌*◌, ◌%◌, ◌^◌, ◌≤◌, ◌<◌, true, false, not, Option, none, some, List, [], ◌∷◌, ◌++◌,
  length, map, leb, ◌==◌, if◌then◌else◌, ◌≡◌, arith, refl, inl, inr, Bool-cases, sym, subst, ◌∙◌,
}
use lsf.Server.Messages.{Response, robot_data_type, user_data_type, RobotData}
use lsf.Server.Handler.{
  State, client_request, dbsvr_next, dbsvr_query, dbsvr_query_message, dbsvr_update, dbsvr_delete,
  dbsvr_insert, finish, World, RspTypes, set_error, DbHandle, Error, query_error, parse_error,
  update_error, set_index, set_handles, send_all,
}
use lsf.Server.Handler.Handles.{
  is_query_ready, query_message, assign, is_ok, is_for, put_at, add_query_data,
  add_query_data_and_lock, new_handle, handle_at, handle_at-range, length-assign, length-put_at,
  length-lock_last,
}
use lsf.Server.Handler.Database
use lsf.Server.Handler.Database.{default_on, to_save}
use lsf.Server.Handler.Machine.Ranks.{
  weight, rank, in_range, fits, Lowers, Lowers-branch, Lowers-if, length-add_end, length-set_error,
}

pub on_next-Lowers :
    (w : World) → fits dbsvr_next w ≡ true → Lowers dbsvr_next w (some (Database.on_next w))
unfolding fits Lowers Database.on_next rank weight set_index
on_next-Lowers w h =
    elim (Bool-cases
      (leb (length w.session.db_handles) (suc w.session.db_process_index % 2 ^ 32))) [
        | inl e ↦ (ground (arith, e), ground (arith, e, h))
        | inr e ↦ (ground (arith, e, h), ground (arith, e, h))
      ]

check_ready-Lowers :
    (s : State) (w w' : World)
    → fits s w ≡ true
    → rank s w ≡ 5 * suc (length w.session.db_handles)
    → length w'.session.db_handles ≡ length w.session.db_handles
    → Lowers s w (some (Database.check_ready w'))
unfolding fits Lowers Database.check_ready set_index rank weight
check_ready-Lowers s w w' h r e = elim (Bool-cases (is_query_ready w'.session.db_handles)) [
  | inl c ↦ (ground (arith, c, r, e), ground (arith, c, h, e))
  | inr c ↦ (ground (arith, c, r, e), ground (arith, c, h, e))
]

pub finish-Lowers :
    (s : State) (w w' : World)
    → fits s w ≡ true
    → 0 < rank s w
    → length w'.session.db_handles ≡ length w.session.db_handles
    → Lowers s w (some (finish, w'))
unfolding fits Lowers rank weight
finish-Lowers s w w' h r e = (r, ground (arith, h, e))

length-lock :
    (type id : ℕ) (hs : List DbHandle)
    → length (add_query_data_and_lock type id hs) ≤ suc (length hs)
unfolding add_query_data_and_lock add_query_data
length-lock type id hs = ground (
  arith,
  length-lock_last hs,
  length-lock_last (hs ++ (new_handle type id ∷ [])),
  length-add_end hs (new_handle type id),
)

pub on_client_request-Lowers :
    (w : World)
    → fits client_request w ≡ true
    → Lowers client_request w (some (Database.on_client_request w))
unfolding fits Lowers Database.on_client_request set_handles rank weight
on_client_request-Lowers w h =
    let less = length-lock user_data_type w.session.uid w.session.db_handles in
    (ground (arith, h, less), ground (arith, h, less))

pub on_query-Lowers :
    (types : RspTypes) (w : World)
    → fits dbsvr_query w ≡ true
    → Lowers dbsvr_query w (some (Database.on_query types w))
unfolding Database.on_query rank weight send_all
on_query-Lowers types w h =
    let wrong = set_error types query_error w in
    let sent = send_all (map (query_message w.session.base.session_id) w.session.db_handles) w in
    Lowers-if dbsvr_query w (leb (length w.session.db_handles) w.session.db_process_index)
      (finish, w)
      (if length w.session.db_handles == 0 then (finish, wrong) else Database.check_ready sent)
      (finish-Lowers dbsvr_query w w h (omega arith) refl)
      (Lowers-if dbsvr_query w (length w.session.db_handles == 0) (finish, wrong)
        (Database.check_ready sent)
        (finish-Lowers dbsvr_query w wrong h (omega arith) (length-set_error types query_error w))
        (check_ready-Lowers dbsvr_query w sent h refl refl))

pub on_query_message-Lowers :
    (types : RspTypes) (w : World)
    → fits dbsvr_query_message w ≡ true
    → Lowers dbsvr_query_message w (some (Database.on_query_message types w))
unfolding Database.on_query_message rank weight set_handles
on_query_message-Lowers types w h =
    let rsp = w.session.svr_response.query_rsp in
    let filled = assign rsp w.session.db_handles in
    let w' = set_handles filled.1 w in
    let wrong = set_error types query_error w in
    let unknown = set_error types parse_error w' in
    let same = length-assign rsp w.session.db_handles in
    Lowers-if dbsvr_query_message w (not (is_ok rsp.result)) (finish, wrong)
      (if not filled.0 then (finish, unknown) else Database.check_ready w')
      (finish-Lowers dbsvr_query_message w wrong h (omega arith)
        (length-set_error types query_error w))
      (Lowers-if dbsvr_query_message w (not filled.0) (finish, unknown) (Database.check_ready w')
        (finish-Lowers dbsvr_query_message w unknown h (omega arith)
          (length-set_error types parse_error w' ∙ same))
        (check_ready-Lowers dbsvr_query_message w w' h refl same))

send_update-Lowers :
    (w w' : World) (id : ℕ) (k : DbHandle) (r : Option RobotData)
    → fits dbsvr_update w ≡ true
    → suc w.session.db_process_index ≤ length w.session.db_handles
    → length w'.session.db_handles ≡ length w.session.db_handles
    → w'.session.db_process_index ≡ w.session.db_process_index
    → Lowers dbsvr_update w (some (Database.send_update id k r w'))
unfolding Database.send_update rank weight fits Lowers send_all
send_update-Lowers w w' id k none h small e i = (ground (arith, e, i), ground (arith, h, e))
send_update-Lowers w w' id k (some r) h small e i =
    (ground (arith, e, i), ground (arith, h, e, small, i))

Lowers-check :
    (types : RspTypes) (e : Error) (s s' : State) (rsp : Response) (w : World) (k : DbHandle)
    → fits s w ≡ true
    → 0 < rank s w
    → Lowers s w (some (s', w))
    → Lowers s w (Database.check_answer types e s' rsp w (some k))
unfolding Database.check_answer
Lowers-check types e s s' rsp w k h pos good =
    let wrong = set_error types e w in
    let low = finish-Lowers s w wrong h pos (length-set_error types e w) in
    Lowers-branch s w (not (is_for rsp.data_type rsp.id k)) (some (finish, wrong))
      (if not (is_ok rsp.result) then some (finish, wrong) else some (s', w)) low
      (Lowers-branch s w (not (is_ok rsp.result)) (some (finish, wrong)) (some (s', w)) low good)

pub check_answer-Lowers :
    (types : RspTypes) (e : Error) (s s' : State) (rsp : Response) (w : World)
    → fits s w ≡ true
    → in_range true w.session.db_process_index (length w.session.db_handles) ≡ true
    → 0 < rank s w
    → rank s' w < rank s w
    → fits s' w ≡ true
    → Lowers s w (
        Database.check_answer types e s' rsp w
          (handle_at w.session.db_process_index w.session.db_handles))
unfolding Database.check_answer Lowers
check_answer-Lowers types e s s' rsp w h range pos less ok =
    elim (handle_at-range w.session.db_process_index w.session.db_handles)
      as (λ _. Lowers s w (
        Database.check_answer types e s' rsp w
          (handle_at w.session.db_process_index w.session.db_handles))) [
            | inl (big, no_handle) ↦ absurd (ground (arith, big, range))
            | inr (small, (k, there)) ↦
                subst (λ o. Lowers s w (Database.check_answer types e s' rsp w o)) (sym there)
                  (Lowers-check types e s s' rsp w k h pos (less, ok))
          ]

found_handle-Lowers :
    (types : RspTypes) (w : World) (k : DbHandle)
    → fits dbsvr_update w ≡ true
    → leb (length w.session.db_handles) w.session.db_process_index ≡ false
    → Lowers dbsvr_update w (some (Database.update_handle types w (some k)))
unfolding Database.update_handle rank weight set_handles
found_handle-Lowers types w k h small =
    let hs = put_at w.session.db_process_index (record k { lock_id = none }) w.session.db_handles in
    let same =
      length-put_at w.session.db_process_index (record k { lock_id = none }) w.session.db_handles in
    let w' = set_handles hs w in
    let robot = to_save k.content.robot_data in
    let wrong = set_error types update_error w' in
    Lowers-if dbsvr_update w (k.data_type == robot_data_type)
      (Database.send_update w.session.base.session_id k robot w') (finish, wrong)
      (send_update-Lowers w w' w.session.base.session_id k robot h (ground (arith, small)) same
        refl)
      (finish-Lowers dbsvr_update w wrong h (omega arith)
        (length-set_error types update_error w' ∙ same))

pub update_handle-Lowers :
    (types : RspTypes) (w : World)
    → fits dbsvr_update w ≡ true
    → Lowers dbsvr_update w (some (Database.on_update types w))
unfolding Database.on_update Database.update_handle rank weight
update_handle-Lowers types w h =
    let i = w.session.db_process_index in
    elim (handle_at-range i w.session.db_handles)
      as (λ _.
        Lowers dbsvr_update w
          (some (Database.update_handle types w (handle_at i w.session.db_handles)))) [
            | inl (big, no_handle) ↦
                subst (λ o. Lowers dbsvr_update w (some (Database.update_handle types w o)))
                  (sym no_handle) (finish-Lowers dbsvr_update w w h (ground (arith, h)) refl)
            | inr (small, (k, there)) ↦
                subst (λ o. Lowers dbsvr_update w (some (Database.update_handle types w o)))
                  (sym there) (found_handle-Lowers types w k h small)
          ]

-- A request about the handle of the index is sent, or there is no such handle.
pub insert_handle-Lowers :
    (w : World) → fits dbsvr_insert w ≡ true → Lowers dbsvr_insert w (some (Database.on_insert w))
unfolding Database.on_insert Database.insert_handle rank weight fits Lowers send_all
insert_handle-Lowers w h = elim (handle_at-range w.session.db_process_index w.session.db_handles) [
  | inl (big, e) ↦ (ground (arith, e), ground (arith, e, h))
  | inr (small, (k, e)) ↦ (ground (arith, e), ground (arith, e, small, h))
]

pub delete_handle-Lowers :
    (w : World) → fits dbsvr_delete w ≡ true → Lowers dbsvr_delete w (some (Database.on_delete w))
unfolding Database.on_delete Database.delete_handle rank weight fits Lowers send_all
delete_handle-Lowers w h = elim (handle_at-range w.session.db_process_index w.session.db_handles) [
  | inl (big, e) ↦ (ground (arith, e), ground (arith, e, h))
  | inr (small, (k, e)) ↦ (ground (arith, e), ground (arith, e, small, h))
]
