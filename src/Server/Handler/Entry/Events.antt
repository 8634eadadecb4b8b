-- ===== src/Server/Handler/Entry/Events.antt =====
-- The states that the events of dev/svr/common/basic_handler.cpp lead to, and fuel for them.
use lsf.Prelude.{ℕ, ◌+◌, ◌*◌, ◌≤◌, ◌<◌, false, some, length, ◌≡◌, arith}
use lsf.Server.Handler.{
  State, client_request, server_request, httpsvr_wait, httpsvr_message, httpsvr_timeout, curl_wait,
  curl_message, curl_timeout, confsvr_wait, confsvr_message, confsvr_timeout, dbsvr_next,
  dbsvr_query, dbsvr_query_wait, dbsvr_query_message, dbsvr_query_timeout, dbsvr_query_success,
  dbsvr_update, dbsvr_update_wait, dbsvr_update_message, dbsvr_update_timeout, dbsvr_update_success,
  dbsvr_delete, dbsvr_delete_wait, dbsvr_delete_message, dbsvr_delete_timeout, dbsvr_delete_success,
  dbsvr_insert, dbsvr_insert_wait, dbsvr_insert_message, dbsvr_insert_timeout, dbsvr_insert_success,
  finish, World, ServerType,
}
use lsf.Server.Handler.Machine.Ranks.{rank, weight, remaining, room, at_handle}
use lsf.Server.Handler.Entry.{answered, timed_out}

weight-bound : (n k : ℕ) (s : State) → k ≤ n → weight n k s ≤ 12 + 5 * n
unfolding weight
weight-bound n k client_request h = omega arith
weight-bound n k server_request h = omega arith
weight-bound n k httpsvr_wait h = omega arith
weight-bound n k httpsvr_message h = omega arith
weight-bound n k httpsvr_timeout h = omega arith
weight-bound n k curl_wait h = omega arith
weight-bound n k curl_message h = omega arith
weight-bound n k curl_timeout h = omega arith
weight-bound n k confsvr_wait h = omega arith
weight-bound n k confsvr_message h = omega arith
weight-bound n k confsvr_timeout h = omega arith
weight-bound n k dbsvr_next h = omega arith
weight-bound n k dbsvr_query h = omega arith
weight-bound n k dbsvr_query_wait h = omega arith
weight-bound n k dbsvr_query_message h = omega arith
weight-bound n k dbsvr_query_timeout h = omega arith
weight-bound n k dbsvr_query_success h = omega arith
weight-bound n k dbsvr_update h = omega arith
weight-bound n k dbsvr_update_wait h = omega arith
weight-bound n k dbsvr_update_message h = omega arith
weight-bound n k dbsvr_update_timeout h = omega arith
weight-bound n k dbsvr_update_success h = omega arith
weight-bound n k dbsvr_delete h = omega arith
weight-bound n k dbsvr_delete_wait h = omega arith
weight-bound n k dbsvr_delete_message h = omega arith
weight-bound n k dbsvr_delete_timeout h = omega arith
weight-bound n k dbsvr_delete_success h = omega arith
weight-bound n k dbsvr_insert h = omega arith
weight-bound n k dbsvr_insert_wait h = omega arith
weight-bound n k dbsvr_insert_message h = omega arith
weight-bound n k dbsvr_insert_timeout h = omega arith
weight-bound n k dbsvr_insert_success h = omega arith
weight-bound n k finish h = omega arith

-- The fuel that is enough for any event of a session with so many handles.
abbrev pub fuel_for : World → ℕ
fuel_for w = 13 + 5 * length w.session.db_handles

pub rank-bound : (s : State) (w : World) → rank s w < fuel_for w
unfolding rank
rank-bound s w =
    ground (arith, weight-bound (length w.session.db_handles) (remaining w) s (omega arith))

-- The states after an answer and after a timeout are no requests, and need the handle if the
-- waiting state does.
abbrev pub After : State → State → Type 0
After s s' = (room s' ≡ 1) × (at_handle s' ≡ at_handle s)

pub answered-After : (s s' : State) (need : ServerType) → answered s ≡ some (need, s') → After s s'
unfolding answered
answered-After client_request s' need e = absurd (ground (arith, e))
answered-After server_request s' need e = absurd (ground (arith, e))
answered-After httpsvr_wait s' need e = (ground (arith, e), ground (arith, e))
answered-After httpsvr_message s' need e = absurd (ground (arith, e))
answered-After httpsvr_timeout s' need e = absurd (ground (arith, e))
answered-After curl_wait s' need e = absurd (ground (arith, e))
answered-After curl_message s' need e = absurd (ground (arith, e))
answered-After curl_timeout s' need e = absurd (ground (arith, e))
answered-After confsvr_wait s' need e = (ground (arith, e), ground (arith, e))
answered-After confsvr_message s' need e = absurd (ground (arith, e))
answered-After confsvr_timeout s' need e = absurd (ground (arith, e))
answered-After dbsvr_next s' need e = absurd (ground (arith, e))
answered-After dbsvr_query s' need e = absurd (ground (arith, e))
answered-After dbsvr_query_wait s' need e = (ground (arith, e), ground (arith, e))
answered-After dbsvr_query_message s' need e = absurd (ground (arith, e))
answered-After dbsvr_query_timeout s' need e = absurd (ground (arith, e))
answered-After dbsvr_query_success s' need e = absurd (ground (arith, e))
answered-After dbsvr_update s' need e = absurd (ground (arith, e))
answered-After dbsvr_update_wait s' need e = (ground (arith, e), ground (arith, e))
answered-After dbsvr_update_message s' need e = absurd (ground (arith, e))
answered-After dbsvr_update_timeout s' need e = absurd (ground (arith, e))
answered-After dbsvr_update_success s' need e = absurd (ground (arith, e))
answered-After dbsvr_delete s' need e = absurd (ground (arith, e))
answered-After dbsvr_delete_wait s' need e = (ground (arith, e), ground (arith, e))
answered-After dbsvr_delete_message s' need e = absurd (ground (arith, e))
answered-After dbsvr_delete_timeout s' need e = absurd (ground (arith, e))
answered-After dbsvr_delete_success s' need e = absurd (ground (arith, e))
answered-After dbsvr_insert s' need e = absurd (ground (arith, e))
answered-After dbsvr_insert_wait s' need e = (ground (arith, e), ground (arith, e))
answered-After dbsvr_insert_message s' need e = absurd (ground (arith, e))
answered-After dbsvr_insert_timeout s' need e = absurd (ground (arith, e))
answered-After dbsvr_insert_success s' need e = absurd (ground (arith, e))
answered-After finish s' need e = absurd (ground (arith, e))

pub timed_out-After :
    (s s' : State) → timed_out s ≡ some s' → (room s' ≡ 1) × ((at_handle s' ≡ false))
unfolding timed_out
timed_out-After client_request s' e = absurd (ground (arith, e))
timed_out-After server_request s' e = absurd (ground (arith, e))
timed_out-After httpsvr_wait s' e = (ground (arith, e), ground (arith, e))
timed_out-After httpsvr_message s' e = absurd (ground (arith, e))
timed_out-After httpsvr_timeout s' e = absurd (ground (arith, e))
timed_out-After curl_wait s' e = (ground (arith, e), ground (arith, e))
timed_out-After curl_message s' e = absurd (ground (arith, e))
timed_out-After curl_timeout s' e = absurd (ground (arith, e))
timed_out-After confsvr_wait s' e = (ground (arith, e), ground (arith, e))
timed_out-After confsvr_message s' e = absurd (ground (arith, e))
timed_out-After confsvr_timeout s' e = absurd (ground (arith, e))
timed_out-After dbsvr_next s' e = absurd (ground (arith, e))
timed_out-After dbsvr_query s' e = absurd (ground (arith, e))
timed_out-After dbsvr_query_wait s' e = (ground (arith, e), ground (arith, e))
timed_out-After dbsvr_query_message s' e = absurd (ground (arith, e))
timed_out-After dbsvr_query_timeout s' e = absurd (ground (arith, e))
timed_out-After dbsvr_query_success s' e = absurd (ground (arith, e))
timed_out-After dbsvr_update s' e = absurd (ground (arith, e))
timed_out-After dbsvr_update_wait s' e = (ground (arith, e), ground (arith, e))
timed_out-After dbsvr_update_message s' e = absurd (ground (arith, e))
timed_out-After dbsvr_update_timeout s' e = absurd (ground (arith, e))
timed_out-After dbsvr_update_success s' e = absurd (ground (arith, e))
timed_out-After dbsvr_delete s' e = absurd (ground (arith, e))
timed_out-After dbsvr_delete_wait s' e = (ground (arith, e), ground (arith, e))
timed_out-After dbsvr_delete_message s' e = absurd (ground (arith, e))
timed_out-After dbsvr_delete_timeout s' e = absurd (ground (arith, e))
timed_out-After dbsvr_delete_success s' e = absurd (ground (arith, e))
timed_out-After dbsvr_insert s' e = absurd (ground (arith, e))
timed_out-After dbsvr_insert_wait s' e = (ground (arith, e), ground (arith, e))
timed_out-After dbsvr_insert_message s' e = absurd (ground (arith, e))
timed_out-After dbsvr_insert_timeout s' e = absurd (ground (arith, e))
timed_out-After dbsvr_insert_success s' e = absurd (ground (arith, e))
timed_out-After finish s' e = absurd (ground (arith, e))
