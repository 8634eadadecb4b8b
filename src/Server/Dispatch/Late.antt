-- ===== src/Server/Dispatch/Late.antt =====
-- An answer that comes after the timer of its session, of dev/svr/common/common_service.cpp and
-- basic_handler.cpp.
use lsf.Prelude.{ℕ, suc, false, none, some, ◌==◌, ◌≡◌, refl, sym, subst, Bool-cases, inl, inr}
use lsf.Prelude.Dict
use lsf.Manager.Sessions.{Session, get_session}
use lsf.Server.Handler.{State, HandlerSession, RspTypes}
use lsf.Server.Handler.Machine.{default_handler}
use lsf.Server.Handler.Entry.{timed_out, wait_response_timeout}
use lsf.Server.Handler.Entry.Endings.{wait_response_timeout-gone}
use lsf.Server.Dispatch.{
  Server, HandlerManager, ServerMessage, is_request, load, load_found, restore_session,
  on_typed_message, on_connection_message, on_session_timer, instance_of,
}
use lsf.Server.Dispatch.Events.{Own}
use lsf.Server.Dispatch.Timeouts.{Gone, loaded, settled, settled-Gone, timer-found}

-- A message that is no request changes nothing when its session is gone.
message-Gone :
    (fuel : ℕ) (hs : HandlerManager) (now server_type t : ℕ) (message : ServerMessage) (s : Server)
    → message.msg_type ≡ some t
    → is_request hs t ≡ false
    → Gone message.session_id s
    → on_connection_message fuel hs now server_type (some message) s ≡ some s
unfolding on_connection_message on_typed_message load load_found restore_session
message-Gone fuel hs now server_type t message s typed no_request gone =
    elim (Bool-cases (message.dst_server_type == server_type)) [
      | inl e ↦ rw (typed, e, no_request, gone.0) refl
      | inr e ↦ rw (typed, e) refl
    ]

-- For a session in a waiting state whose handler overrides nothing of `BasicHandler`, on a server
-- that stores every session under its own id, two rounds of the loop are enough for the session
-- timer; then the session is gone from the manager and from the rest, and any later message that
-- names it and is no request, for any server and with any answer, leaves the server as it is.
pub on_session_timer-late :
    (n fuel : ℕ) (hs : HandlerManager) (types : RspTypes) (now later server_type t : ℕ)
    (message : ServerMessage) (s : Server) (base : Session) (body : HandlerSession) (next : State)
    → Own s
    → get_session message.session_id s.sessions ≡ some base
    → Dict.find message.session_id s.bodies ≡ some body
    → timed_out body.state ≡ some next
    → instance_of hs body.cs_request body.ss_request ≡ default_handler types
    → message.msg_type ≡ some t
    → is_request hs t ≡ false
    → (s' : Server) × ((on_session_timer (suc (suc n)) hs now message.session_id s ≡ some s')
        × (Gone message.session_id s'
            × (on_connection_message fuel hs later server_type (some message) s' ≡ some s')))
on_session_timer-late n fuel hs types now later server_type t message s base body next own found
      rest out plain typed no_request =
    let id = message.session_id in
    let v = loaded base body s in
    let (w, (e, gone)) = wait_response_timeout-gone n types now v next out in
    let none_left : get_session id w.sessions ≡ none =
      subst (λ i. get_session i w.sessions ≡ none) (own id base found) gone in
    let over = settled-Gone id s w none_left in
    let e' : wait_response_timeout (suc (suc n)) (instance_of hs body.cs_request body.ss_request)
          now v
        ≡ some w =
      subst (λ h. wait_response_timeout (suc (suc n)) h now v ≡ some w) (sym plain) e in
    (
      settled id s w,
      (
        timer-found (suc (suc n)) hs now id s base body w found rest e',
        (
          over,
          message-Gone fuel hs later server_type t message (settled id s w) typed no_request over,
        ),
      ),
    )
