-- ===== src/Asio.antt =====
-- The event loop's tables, of dev/lsf/asio/async.
pub mod CompletionQueue
