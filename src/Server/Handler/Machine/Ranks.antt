-- ===== src/Server/Handler/Machine/Ranks.antt =====
-- A measure for the loop of `RunStateMachine` in dev/svr/common/basic_handler.cpp.
use lsf.Prelude.{
  ℕ, zero, suc, ◌+◌, ◌-◌, ◌*◌, ◌%◌, ◌^◌, ◌<◌, Bool, true, false, ◌&&◌, Option, none, some, List, [],
  ◌∷◌, ◌++◌, length, leb, if◌then◌else◌, ◌≡◌, arith, refl,
}
use lsf.Server.Handler.{
  State, client_request, server_request, httpsvr_wait, httpsvr_message, httpsvr_timeout, curl_wait,
  curl_message, curl_timeout, confsvr_wait, confsvr_message, confsvr_timeout, dbsvr_next,
  dbsvr_query, dbsvr_query_wait, dbsvr_query_message, dbsvr_query_timeout, dbsvr_query_success,
  dbsvr_update, dbsvr_update_wait, dbsvr_update_message, dbsvr_update_timeout, dbsvr_update_success,
  dbsvr_delete, dbsvr_delete_wait, dbsvr_delete_message, dbsvr_delete_timeout, dbsvr_delete_success,
  dbsvr_insert, dbsvr_insert_wait, dbsvr_insert_message, dbsvr_insert_timeout, dbsvr_insert_success,
  finish, World, RspTypes, set_error, DbHandle, Error, error_if, set_internal_error, InternalError,
  internal_error_if,
}

-- The weight of a state with so many handles, and so many after the one that is worked on.
unfoldable pub weight : ℕ → ℕ → State → ℕ
weight n k client_request = suc (suc (5 * suc (suc n)))
weight n k server_request = 1
weight n k httpsvr_wait = zero
weight n k httpsvr_message = 1
weight n k httpsvr_timeout = 1
weight n k curl_wait = zero
weight n k curl_message = 1
weight n k curl_timeout = 1
weight n k confsvr_wait = zero
weight n k confsvr_message = 1
weight n k confsvr_timeout = 1
weight n k dbsvr_next = suc (5 * k)
weight n k dbsvr_query = 5 * suc n
weight n k dbsvr_query_wait = zero
weight n k dbsvr_query_message = 5 * suc n
weight n k dbsvr_query_timeout = 1
weight n k dbsvr_query_success = 4 + 5 * k
weight n k dbsvr_update = 3 + 5 * k
weight n k dbsvr_update_wait = zero
weight n k dbsvr_update_message = 3 + 5 * k
weight n k dbsvr_update_timeout = 1
weight n k dbsvr_update_success = 2 + 5 * k
weight n k dbsvr_delete = 2
weight n k dbsvr_delete_wait = zero
weight n k dbsvr_delete_message = 2
weight n k dbsvr_delete_timeout = 1
weight n k dbsvr_delete_success = 1
weight n k dbsvr_insert = 2
weight n k dbsvr_insert_wait = zero
weight n k dbsvr_insert_message = 2
weight n k dbsvr_insert_timeout = 1
weight n k dbsvr_insert_success = 1
weight n k finish = zero

-- The handles that are left after the index.
abbrev pub remaining : World → ℕ
remaining w = length w.session.db_handles - (suc w.session.db_process_index % 2 ^ 32)

unfoldable pub rank : State → World → ℕ
rank s w = weight (length w.session.db_handles) (remaining w) s

-- The states whose callback finds a handle by the index, and those that wait for its answer.
abbrev pub at_handle : State → Bool
at_handle dbsvr_update_wait = true
at_handle dbsvr_update_message = true
at_handle dbsvr_insert_wait = true
at_handle dbsvr_insert_message = true
at_handle dbsvr_delete_wait = true
at_handle dbsvr_delete_message = true
at_handle _ = false

-- A request of a client adds a handle.
abbrev pub room : State → ℕ
room client_request = 2
room _ = 1

abbrev pub in_range : Bool → ℕ → ℕ → Bool
in_range true i n = leb (suc i) n
in_range false i n = true

-- The handles are counted by an `int`, and the answer to a request about one handle finds it.
unfoldable pub fits : State → World → Bool
fits s w =
    leb (room s + length w.session.db_handles) (2 ^ 31)
    && in_range (at_handle s) w.session.db_process_index (length w.session.db_handles)

-- A callback of this state gives a lower rank, and a session that still fits.
unfoldable pub Lowers : State → World → Option (State × World) → Type 0
Lowers s w none = ⊥
Lowers s w (some (s', w')) = (rank s' w' < rank s w) × (fits s' w' ≡ true)

pub Lowers-branch :
    (s : State) (w : World) (b : Bool) (x y : Option (State × World))
    → Lowers s w x
    → Lowers s w y
    → Lowers s w (if b then x else y)
Lowers-branch s w true x y hx hy = hx
Lowers-branch s w false x y hx hy = hy

pub Lowers-if :
    (s : State) (w : World) (b : Bool) (x y : State × World)
    → Lowers s w (some x)
    → Lowers s w (some y)
    → Lowers s w (some (if b then x else y))
Lowers-if s w true x y hx hy = hx
Lowers-if s w false x y hx hy = hy

pub length-add_end : (hs : List DbHandle) (k : DbHandle) → length (hs ++ (k ∷ [])) ≡ suc (length hs)
length-add_end [] k = refl
length-add_end (h ∷ hs) k = ground (arith, length-add_end hs k)

pub length-set_error :
    (types : RspTypes) (e : Error) (w : World)
    → length (set_error types e w).session.db_handles ≡ length w.session.db_handles
unfolding set_error error_if
length-set_error types e w = ground arith

pub length-set_internal_error :
    (types : RspTypes) (e : InternalError) (w : World)
    → length (set_internal_error types e w).session.db_handles ≡ length w.session.db_handles
unfolding set_internal_error internal_error_if
length-set_internal_error types e w = ground arith
