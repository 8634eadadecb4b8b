-- ===== src/Server.antt =====
-- The servers of dev/svr: the data server, and the handlers of sessions.
pub mod Messages
pub mod DataServer
pub mod Handler
pub mod Dispatch
pub mod Transfer
pub mod Clients
pub mod Transactions
