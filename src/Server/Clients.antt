-- ===== src/Server/Clients.antt =====
-- The messages of clients: `ConnectClientMsgTransferService::OnConnectionMessage` of
-- dev/svr/common/common_service.cpp, with the connections of `ClientConnManager`.
use lsf.Prelude.{ℕ, Bool, true, false, Option, none, some, List, [], ◌∷◌, ◌++◌, ◌≡◌, arith}
use lsf.Manager
use lsf.Manager.Ids.{id_count}
use lsf.Manager.Sessions.{create_session}
use lsf.Manager.Clients.{ClientConn, ClientConnManager, create_client_conn, release_client_conn}
use lsf.Server.Handler.Entry.{get_client_request}
use lsf.Server.Dispatch.{Server, HandlerManager, cs_instance, begin_session}

-- A CS message after parsing, and the fields that are looked at.
pub record ClientMessage : Type 0 where
  pub msg_type : Option ℕ
  pub head : ClientConn
  pub is_new_conn : Bool
  pub is_close_conn : Bool

-- The connections, if their manager is set up, the sessions, and the connection ids of the messages
-- that are to close a connection.
pub record ClientServer : Type 0 where
  pub conns : Option ClientConnManager
  pub server : Server
  pub closing : List (Option ℕ)

-- A request gets a session.
unfoldable pub with_server : ClientServer → Option Server → Option ClientServer
with_server s none = none
with_server s (some server) = some (record s { server = server })

unfoldable pub start_request :
    ℕ → HandlerManager → ℕ → ℕ → Option ℕ → ClientServer → Option ClientServer
start_request fuel hs now uid none s = some s
start_request fuel hs now uid (some t) s = with_server s (
    begin_session now (create_session id_count now s.server.sessions)
      (get_client_request fuel (cs_instance hs t) now t uid) s.server)

-- A closed connection is released, and nothing else is done.
unfoldable pub close_or_start :
    ℕ
    → HandlerManager
    → ℕ
    → ClientMessage
    → Bool
    → Option ClientConnManager
    → ClientServer
    → Option ClientServer
close_or_start fuel hs now message true (some m) s =
    some (record s { conns = some (release_client_conn message.head.conn_id m).1 })
close_or_start fuel hs now message true none s =
    start_request fuel hs now message.head.uid message.msg_type s
close_or_start fuel hs now message false conns s =
    start_request fuel hs now message.head.uid message.msg_type s

-- A new connection that there is no room for is to be closed; the message for that has an empty
-- head, which names no connection.
unfoldable pub opened :
    ℕ
    → HandlerManager
    → ℕ
    → ClientMessage
    → Option ClientConn × ClientConnManager
    → ClientServer
    → Option ClientServer
opened fuel hs now message (none, m) s =
    some (record s { conns = some m; closing = s.closing ++ (none ∷ []) })
opened fuel hs now message (some conn, m) s =
    close_or_start fuel hs now message message.is_close_conn (some m) (record s { conns = some m })

unfoldable pub open_or_go :
    ℕ
    → HandlerManager
    → ℕ
    → ClientMessage
    → Bool
    → Option ClientConnManager
    → ClientServer
    → Option ClientServer
open_or_go fuel hs now message true (some m) s =
    opened fuel hs now message (create_client_conn message.head m) s
open_or_go fuel hs now message true none s =
    close_or_start fuel hs now message message.is_close_conn none s
open_or_go fuel hs now message false conns s =
    close_or_start fuel hs now message message.is_close_conn conns s

-- `OnConnectionMessage`; none for a message that cannot be parsed.
unfoldable pub on_client_message :
    ℕ → HandlerManager → ℕ → Option ClientMessage → ClientServer → Option ClientServer
on_client_message fuel hs now none s = some s
on_client_message fuel hs now (some message) s =
    open_or_go fuel hs now message message.is_new_conn s.conns s

-- A full manager refuses a new connection: nothing is stored, no session is made, and one closing
-- message is sent, which names no connection.
pub on_client_message-full :
    (fuel : ℕ) (hs : HandlerManager) (now : ℕ) (message : ClientMessage) (m : ClientConnManager)
    (s : ClientServer)
    → message.is_new_conn ≡ true
    → s.conns ≡ some m
    → Manager.full m.conns ≡ true
    → on_client_message fuel hs now (some message) s
      ≡ some (record s { conns = some m; closing = s.closing ++ (none ∷ []) })
unfolding on_client_message open_or_go opened create_client_conn
on_client_message-full fuel hs now message m s new there full = ground (arith, new, there, full)
