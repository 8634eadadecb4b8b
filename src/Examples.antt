-- ===== src/Examples.antt =====
-- Tests and concrete instances of the theorems.
pub mod Lists
pub mod Queues
pub mod Trees
pub mod Text
pub mod Managers
pub mod Database
pub mod Handlers
pub mod Dispatch
