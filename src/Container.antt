-- ===== src/Container.antt =====
-- The containers of dev/lsf/container: fixed storage, positions instead of pointers.
pub mod Ring
pub mod ListState
pub mod LinkedList
pub mod ObjectPool
pub mod CircularQueue
pub mod RedBlackTree
pub mod OrderedMap
