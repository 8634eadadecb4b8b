-- ===== src/Server/Dispatch/Requests.antt =====
-- The sessions of a server when a message comes: `OnConnectionMessage` and `PostInternalMessage` of
-- dev/svr/common/common_service.cpp.
use lsf.Prelude.{
  ℕ, ◌≤◌, Bool, true, false, not, Option, none, some, ◌==◌, if◌then◌else◌, ◌≡◌, ◌≢◌, arith, refl,
  inl, inr, Bool-cases, ap, sym, subst, ◌∙◌,
}
use lsf.Prelude.Dict
use lsf.Manager
use lsf.Manager.Ids.{id_count}
use lsf.Manager.Sessions.{
  Session, SessionManager, get_session, create_session, create_session-fresh,
}
use lsf.Server.Handler.{World, set_state, server_request}
use lsf.Server.Handler.Machine.{Handler}
use lsf.Server.Handler.Machine.Outcome.{IsLowering}
use lsf.Server.Handler.Entry.{get_server_request}
use lsf.Server.Dispatch.{
  Server, load, settle, HandlerManager, instance_of, ss_instance, begin_session, post_request,
  restore_session, ServerMessage, on_typed_message, on_connection_message, new_session, is_request,
}
use lsf.Server.Dispatch.Isolation.{OthersIn, run-Others}
use lsf.Server.Dispatch.Events.{
  Kept, ApartIn, AllLowering, Own, settle-Apart, restore_session-Apart,
}

-- The sessions that were there are as before, but perhaps this one.
abbrev pub KeptIn : ℕ → Server → Option Server → Type 0
KeptIn id s none = s ≡ s
KeptIn id s (some s') =
    (k : ℕ) (b : Session) → k ≢ id → get_session k s.sessions ≡ some b → Kept k s s'

KeptIn-branch :
    (id : ℕ) (s : Server) (b : Bool) (x y : Option Server)
    → KeptIn id s x
    → KeptIn id s y
    → KeptIn id s (if b then x else y)
KeptIn-branch id s true x y hx hy = hx
KeptIn-branch id s false x y hx hy = hy

Apart-Kept : (id : ℕ) (s : Server) (o : Option Server) → ApartIn id s o → KeptIn id s o
Apart-Kept id s none apart = refl
Apart-Kept id s (some s') apart = λ k b ne g. apart k ne

-- What is done for a new session, whose id no session had.
fresh-Kept :
    (id new : ℕ) (m : SessionManager) (s : Server) (o : Option Server)
    → get_session new s.sessions ≡ none
    → ((k : ℕ) → k ≢ new → get_session k m ≡ get_session k s.sessions)
    → ApartIn new (record s { sessions = m }) o
    → KeptIn id s o
fresh-Kept id new m s none free others apart = refl
fresh-Kept id new m s (some s') free others apart = λ k b ne g.
    let differs : k ≢ new =
      λ e. absurd (ground (arith, ap (λ j. get_session j s.sessions) e, g, free)) in
    let (sessions, bodies) = apart k differs in (sessions ∙ others k differs, bodies)

-- `settle` reads nothing of the server but the rest of the sessions.
settle-from :
    (id : ℕ) (m : SessionManager) (o : Option World) (s : Server)
    → settle id o (record s { sessions = m }) ≡ settle id o s
unfolding settle
settle-from id m none s = refl
settle-from id m (some w) s = refl

get_server_request-Others :
    (fuel : ℕ) (h : Handler) (now t : ℕ) (w : World)
    → IsLowering h
    → OthersIn w.session.base.session_id w.sessions (get_server_request fuel h now t w)
unfolding get_server_request set_state
get_server_request-Others fuel h now t w good =
    run-Others fuel h now
      (set_state server_request (record w { session = record w.session { ss_request = some t } }))
      good

-- A full manager gives no session.
create_session-full :
    (now : ℕ) (m : SessionManager)
    → Manager.full m.sessions ≡ true
    → create_session id_count now m ≡ some (none, m)
unfolding create_session
create_session-full now m full = ground (arith, full)

post_request-Kept :
    (fuel : ℕ) (hs : HandlerManager) (now t id : ℕ) (s : Server)
    → AllLowering hs
    → s.sessions.sessions.max_size ≤ id_count
    → KeptIn id s (post_request fuel hs now t s)
unfolding post_request begin_session new_session instance_of
post_request-Kept fuel hs now t id s good small =
    let work = get_server_request fuel (ss_instance hs t) now t in
    let lowering : IsLowering (ss_instance hs t) = good none (some t) in
    elim (Bool-cases (Manager.full s.sessions.sessions))
      as (λ _. KeptIn id s (begin_session now (create_session id_count now s.sessions) work s)) [
        | inl full ↦
            subst (λ o. KeptIn id s (begin_session now o work s))
              (sym (create_session-full now s.sessions full)) (λ k b ne g. (refl, refl))
        | inr free ↦
            let (new, m, created, unused, there, others) =
              create_session-fresh now s.sessions free small in
            let w : World = record {
              session = new_session now new;
              sessions = m;
              timers = s.timers;
              sent = s.sent;
            } in
            subst (λ o. KeptIn id s (begin_session now o work s)) (sym created)
              (fresh-Kept id new m s (settle new (work w) s) unused others (
                subst (ApartIn new (record s { sessions = m })) (settle-from new m (work w) s) (
                  settle-Apart new (work w) (record s { sessions = m })
                    (get_server_request-Others fuel (ss_instance hs t) now t w lowering))))
      ]

on_typed_message-Kept :
    (fuel : ℕ) (hs : HandlerManager) (now type : ℕ) (message : ServerMessage) (o : Option ℕ)
    (s : Server)
    → AllLowering hs
    → Own s
    → s.sessions.sessions.max_size ≤ id_count
    → KeptIn message.session_id s (on_typed_message fuel hs now type message o s)
unfolding on_typed_message
on_typed_message-Kept fuel hs now type message none s good own small = λ k b ne g. (refl, refl)
on_typed_message-Kept fuel hs now type message (some t) s good own small =
    let id = message.session_id in
    let request = post_request fuel hs now t s in
    let answer = restore_session fuel hs now id message.rsp (load id s) s in
    KeptIn-branch id s (not (message.dst_server_type == type)) (some s)
      (if is_request hs t then request else answer) (λ k b ne g. (refl, refl))
      (KeptIn-branch id s (is_request hs t) request answer
        (post_request-Kept fuel hs now t id s good small)
        (Apart-Kept id s answer (restore_session-Apart fuel hs now id message.rsp s good own)))

-- When every handler lowers the measure and leaves the managers alone, every session is stored
-- under its own id, and the session manager is for at most 2^24 sessions, then a message that is
-- processed to an end leaves every session as it was, but the one that the message names.
pub on_connection_message-Kept :
    (fuel : ℕ) (hs : HandlerManager) (now type : ℕ) (message : ServerMessage) (s s' : Server)
    (k : ℕ) (b : Session)
    → AllLowering hs
    → Own s
    → s.sessions.sessions.max_size ≤ id_count
    → on_connection_message fuel hs now type (some message) s ≡ some s'
    → k ≢ message.session_id
    → get_session k s.sessions ≡ some b
    → (get_session k s'.sessions ≡ some b) × (Dict.find k s'.bodies ≡ Dict.find k s.bodies)
unfolding on_connection_message
on_connection_message-Kept fuel hs now type message s s' k b good own small e ne g =
    let kept =
      subst (KeptIn message.session_id s) e
        (on_typed_message-Kept fuel hs now type message message.msg_type s good own small) in
    let (sessions, bodies) = kept k b ne g in (sessions ∙ g, bodies)
