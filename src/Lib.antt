-- ===== src/Lib.antt =====
-- A verification library for lsf, a C++ server framework.
--
-- The framework has containers that live in shared memory (dev/lsf/container), string and text
-- utilities (dev/lsf/util), algorithms (dev/lsf/algorithm), an event loop (dev/lsf/asio) and, on top
-- of them, servers (dev/svr) that keep sessions, timers and connections in managers
-- (dev/svr/common). The containers put a state and an array of nodes into one block of storage and
-- link the nodes by position; list and pool share one such state, set and map another one. The
-- managers are maps from ids to objects; a session may own a timer, which its release releases too.
-- A request makes a session, whose handler is a state machine: it asks the data server for records,
-- waits under a timer, and answers. The data server (dev/svr/datasvrd) keeps records with a version
-- and a lock in LevelDB.
--
-- Which file models which part:
--   Container/ListState      `ListState` of dev/lsf/container/detail/impl_bidirectional_list.hpp: `Init`,
--                            `GetNewNodeAndInsert`, `FreeNode`, `GetDataPtr`, `CalcByteSize`. The nodes are
--                            a function from positions. Links, Wf, Init, Insert and Free hold the
--                            invariant: a ring of used and a ring of unused nodes.
--   Container/LinkedList     `List` of dev/lsf/container/list.hpp and its iterator
--   Container/ObjectPool     `Pool` of dev/lsf/container/pool.hpp; an exception is the outcome `thrown`
--   Container/CircularQueue  `QueueState`, its iterator and `Queue` (impl_circular_queue.hpp, queue.hpp)
--   Container/RedBlackTree   `RBTreeState` of impl_red_black_tree.hpp: Find the searches, Fixup the
--                            insertion, Erase the removal, Search and InnerChild theorems
--   Container/OrderedMap     `Set` and `Map` of dev/lsf/container/set.hpp and map.hpp
--   Util/Split, Hex, Trim, Replace, Utf8   the functions of dev/lsf/util/string_ext.hpp
--   Util/WordsFilter         `WordsFilter` of dev/lsf/util/words_filter.hpp
--   Algorithm/Combination    dev/lsf/algorithm/combination.hpp
--   Asio/CompletionQueue     `CompletionQueue` of dev/lsf/asio/async/completion_queue.hpp
--   Manager                  `BasicManager` of dev/svr/common/basic_manager.h
--   Manager/Ids              the search for an unused id that the managers share
--   Manager/Timers           `TimerManager` of dev/svr/common/timer_manager.cpp
--   Manager/Sessions         `SessionManager` of dev/svr/common/session_manager.cpp
--   Manager/Clients          `ClientConnManager` of dev/svr/common/client_conn_manager.cpp
--   Server/Messages          the messages of the data server, of dev/svr/proto
--   Server/DataServer        dev/svr/datasvrd/handler_common.cpp; Locks, Exclusion, Runs, Versions,
--                            Updates and Writes hold the theorems
--   Server/Handler           the session and the sending parts of dev/svr/common/basic_handler.cpp; Handles its
--                            data handles, Database the callbacks, Machine `RunStateMachine`, Entry the events
--   Server/Dispatch          a server with many sessions: dev/svr/common/handler_manager.cpp, the SS
--                            messages of common_service.cpp, the session timers of session_manager.cpp;
--                            Isolation, Events, Timeouts, Late, Requests and Fallback
--                            hold the theorems
--   Server/Transfer          the proxy head of messages, of dev/svr/common/common_service.cpp
--   Server/Clients           the messages of clients, of dev/svr/common/common_service.cpp
--   Server/Transactions      the handler and the data server together
--   Container/Ring, Util/Bytes, Prelude   chains of links, strings as lists of bytes, shared helpers
--   Examples                 tests and concrete instances
--
-- `size_t` is a 64-bit word: additions and subtractions are written with their wrap-around. The
-- sizes of types that the compiler decides are parameters. Lengths of strings are not wrapped.
--
-- Fuel: loops that follow links run on fuel, and `none` means that it ran out. `Find` of a list has
-- as much as the block has nodes, a search in a tree one more than that, the loops on strings one
-- more than the length, and the search for an id 2^24, the number of ids. A loop along a ring or a
-- path meets a node at most once, a loop on a string moves on by at least one byte each round, and
-- 2^24 rounds of the search for an id try every id. `RunStateMachine` has fuel of 13 and 5 for each
-- handle of the session: each callback lowers a measure that is below it.
--
-- LevelDB is a parameter, the record `LevelDb`, with the laws of reads after writes; a read of a
-- key that was written is taken to succeed then. A callback of a handler is a function of the
-- state and the world, which is the session, the managers and what was sent; an access out of
-- range is none. `OnSessionFinish` is a function of the world. The object of the session is
-- written to its manager when the loop stops. A result field of a response stands for what
-- `SetResponse` sets by reflection.
--
-- Not modelled: sockets, the proactor, logging, dates, files, curl, protobuf serialisation, shared
-- memory itself, the servers and services around the handlers, and the third-party sources in dev/svr/3rd. In the managers
-- the copy of the objects to and from shared memory is left out, the clock is an argument, the heap
-- of timers is a list in the order of `top` and `pop`, and callbacks are the list of what they are
-- called with. `CheckConsist` and the iterator of the tree are left out.
pub mod Prelude
pub mod Container
pub mod Util
pub mod Manager
pub mod Server
pub mod Asio
pub mod Algorithm
pub mod Examples
