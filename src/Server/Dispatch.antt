-- ===== src/Server/Dispatch.antt =====
-- A server with many sessions: `HandlerManager` of dev/svr/common/handler_manager.cpp, the messages that
-- `ConnectServerMsgTransferService` of common_service.cpp gets, and the timers of sessions.
pub mod Isolation
pub mod Events
pub mod Timeouts
pub mod Late
pub mod Requests
pub mod Fallback
use lsf.Prelude.{ℕ, Bool, true, false, not, Option, none, some, List, [], ◌==◌, if◌then◌else◌, ◌≡◌}
use lsf.Prelude.Dict
use lsf.Prelude.Dict.{Dict}
use lsf.Manager.Ids.{id_count}
use lsf.Manager.Timers.{TimerManager}
use lsf.Manager.Sessions.{Session, SessionManager, get_session, create_session}
use lsf.Server.Messages.{Response, no_data, ok_result}
use lsf.Server.Handler.{
  State, client_request, server_request, finish, HandlerSession, ServerResponse, other_server,
  World, Message, RspTypes, on_session_finish,
}
use lsf.Server.Handler.Database.{default_on}
use lsf.Server.Handler.Machine.{Handler}
use lsf.Server.Handler.Entry.{
  get_server_response, wait_response_timeout, get_server_request, get_client_request,
}

-- `DefaultHandler`: both requests end the session.
unfoldable pub ends_request : State → Bool
ends_request client_request = true
ends_request server_request = true
ends_request _ = false

unfoldable pub fallback_handler : Handler
fallback_handler =
    let types : RspTypes = record { cs_rsp_type = none; ss_rsp_type = none } in
    record {
      on = λ s w. if ends_request s then some (finish, w) else default_on types s w;
      on_finish = on_session_finish types;
    }

-- `HandlerManager`: the handlers of the message types, with the tests of the generated code.
pub record HandlerManager : Type 0 where
  pub cs_handler : ℕ → Option Handler
  pub ss_handler : ℕ → Option Handler
  pub cs_is_valid : ℕ → Bool
  pub ss_is_valid : ℕ → Bool

abbrev pub or_fallback : Option Handler → Handler
or_fallback none = fallback_handler
or_fallback (some h) = h

unfoldable pub cs_instance : HandlerManager → ℕ → Handler
cs_instance hs t =
    if not (hs.cs_is_valid t) then fallback_handler else or_fallback (hs.cs_handler t)

unfoldable pub ss_instance : HandlerManager → ℕ → Handler
ss_instance hs t =
    if not (hs.ss_is_valid t) then fallback_handler else or_fallback (hs.ss_handler t)

-- The handler of a session: of its client request, or of its server request.
unfoldable pub instance_of : HandlerManager → Option ℕ → Option ℕ → Handler
instance_of hs (some t) ss = cs_instance hs t
instance_of hs none (some t) = ss_instance hs t
instance_of hs none none = fallback_handler

unfoldable pub is_request : HandlerManager → ℕ → Bool
is_request hs t = elim (hs.ss_handler t) [ none ↦ false | some _ ↦ true ]

-- The sessions: what the manager knows of each, and the rest of each by its id.
pub record Server : Type 0 where
  pub sessions : SessionManager
  pub bodies : Dict HandlerSession
  pub timers : TimerManager
  pub sent : List Message

-- A session to work on.
unfoldable pub load_found : Option Session → Option HandlerSession → Server → Option World
load_found none body s = none
load_found (some base) none s = none
load_found (some base) (some body) s = some (record {
  session = record body { base = base };
  sessions = s.sessions;
  timers = s.timers;
  sent = s.sent;
})

unfoldable pub load : ℕ → Server → Option World
load id s = load_found (get_session id s.sessions) (Dict.find id s.bodies) s

-- What the work on a session leaves.
unfoldable pub keep_body :
    ℕ → Option Session → HandlerSession → Dict HandlerSession → Dict HandlerSession
keep_body id none body bodies = Dict.erase id bodies
keep_body id (some base) body bodies = Dict.insert id body bodies

unfoldable pub settle : ℕ → Option World → Server → Option Server
settle id none s = none
settle id (some w) s = some (record {
  sessions = w.sessions;
  timers = w.timers;
  sent = w.sent;
  bodies = keep_body id (get_session id w.sessions) w.session s.bodies;
})

-- An SS message after parsing, and the fields that are looked at.
pub record ServerMessage : Type 0 where
  pub msg_type : Option ℕ
  pub dst_server_type : ℕ
  pub session_id : ℕ
  pub rsp : ServerResponse

abbrev no_response : Response
no_response = record {
  result = ok_result;
  data_type = 1;
  id = 0;
  version = none;
  content = no_data;
  lock_id = none;
}

-- A session as it is created.
unfoldable pub new_session : ℕ → ℕ → HandlerSession
new_session now id = record {
  base = record { session_id = id; create_time = now; timer_id = none };
  state = client_request;
  db_handles = [];
  db_process_index = 0;
  is_send_rsp = false;
  cs_request = none;
  uid = 0;
  cs_error = none;
  ss_request = none;
  ss_error = none;
  svr_response = record {
    src_server_type = other_server;
    query_rsp = no_response;
    update_rsp = no_response;
    insert_rsp = no_response;
    delete_rsp = no_response;
  };
  curl_result = false;
  curl_content = [];
}

-- A request gets a session, unless there is no room for one.
unfoldable pub begin_session :
    ℕ → Option (Option ℕ × SessionManager) → (World → Option World) → Server → Option Server
begin_session now none work s = none
begin_session now (some (none, m)) work s = some (record s { sessions = m })
begin_session now (some (some id, m)) work s =
    settle id
      (work
        (record { session = new_session now id; sessions = m; timers = s.timers; sent = s.sent }))
      s

-- `PostInternalMessage`, and what `OnConnectionMessage` does with a request.
unfoldable pub post_request : ℕ → HandlerManager → ℕ → ℕ → Server → Option Server
post_request fuel hs now t s =
    begin_session now (create_session id_count now s.sessions)
      (get_server_request fuel (ss_instance hs t) now t) s

-- An answer goes to its session, if it is still there.
unfoldable pub restore_session :
    ℕ → HandlerManager → ℕ → ℕ → ServerResponse → Option World → Server → Option Server
restore_session fuel hs now id rsp none s = some s
restore_session fuel hs now id rsp (some w) s =
    settle id
      (get_server_response fuel (instance_of hs w.session.cs_request w.session.ss_request) now rsp
        w)
      s

-- `ConnectServerMsgTransferService::OnConnectionMessage` on a server of this type; none for a
-- message that cannot be parsed.
unfoldable pub on_typed_message :
    ℕ → HandlerManager → ℕ → ℕ → ServerMessage → Option ℕ → Server → Option Server
on_typed_message fuel hs now server_type message none s = some s
on_typed_message fuel hs now server_type message (some t) s =
    if not (message.dst_server_type == server_type)
    then some s
    else if is_request hs t
    then post_request fuel hs now t s
    else restore_session fuel hs now message.session_id message.rsp (load message.session_id s) s

unfoldable pub on_connection_message :
    ℕ → HandlerManager → ℕ → ℕ → Option ServerMessage → Server → Option Server
on_connection_message fuel hs now server_type none s = some s
on_connection_message fuel hs now server_type (some message) s =
    on_typed_message fuel hs now server_type message message.msg_type s

-- The handle of a session's timer, that `SessionManager::Init` registers.
unfoldable pub timeout_found : ℕ → HandlerManager → ℕ → ℕ → Option World → Server → Option Server
timeout_found fuel hs now id none s = some s
timeout_found fuel hs now id (some w) s =
    settle id
      (wait_response_timeout fuel (instance_of hs w.session.cs_request w.session.ss_request) now w)
      s

unfoldable pub on_session_timer : ℕ → HandlerManager → ℕ → ℕ → Server → Option Server
on_session_timer fuel hs now session_id s =
    timeout_found fuel hs now session_id (load session_id s) s
