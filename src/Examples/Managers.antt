-- ===== src/Examples/Managers.antt =====
-- Managers with a few objects.
use lsf.Prelude.{
  ℕ, ◌≡◌, ◌≢◌, refl, Bool, true, false, [], ◌∷◌, arith, mem, map, if◌then◌else◌, some, none, add64,
}
use lsf.Prelude.Dict
use lsf.Manager.{Manager}
use lsf.Manager
use lsf.Manager.Ids.{id_count}
use lsf.Manager.Timers.{
  Timer, TimerManager, get_timer, push, create_timer, release_timer, on_tick, create_timer-fresh,
}
use lsf.Manager.Timers.Tick.{live, on_tick-due, on_tick-release_timer}
use lsf.Manager.Sessions.{SessionManager, get_session, check_leak}
use lsf.Manager.Sessions.Leaks.{keep, check_leak-keep}
use lsf.Manager.Clients.{
  ClientConn, ClientConnManager, release_client_conn, get_client_conn, get_client_conn_by_uid,
  find_index_of, conn_of, find_index_of, conn_of,
}
use lsf.Manager.Clients.Index.{Indexed, release_client_conn-Indexed}

abbrev timer : ℕ → ℕ → Timer
timer id due = record {
  timer_id = id;
  timer_milli_seconds = due;
  timer_type = 1;
  is_delete = false;
  session_id = 0;
}

-- The timers 5 and 6, due at 100 and 200.
abbrev two_timers : TimerManager
two_timers = record {
  timers = record { max_size = 10; map = (5, timer 5 100) ∷ (6, timer 6 200) ∷ [] };
  timer_heap = (100, 5) ∷ (200, 6) ∷ [];
  cur_max_id = 6;
}

abbrev any_type : ℕ → Bool
any_type k = true

two_timers-room : Manager.full two_timers.timers ≡ false
unfolding Manager.full
two_timers-room = refl

two_timers-own : (k : ℕ) (t : Timer) → get_timer k two_timers ≡ some t → t.timer_id ≡ k
unfolding get_timer Dict.find
two_timers-own k t e = ground (arith, e)

create_timer-fresh_example :
    (id : ℕ) × (m : TimerManager) × (create_timer id_count 50 30 1 two_timers ≡ some (some id, m))
    × (get_timer id two_timers ≡ none)
    × (get_timer id m
        ≡ some (record {
          timer_id = id;
          timer_milli_seconds = add64 50 30;
          timer_type = 1;
          is_delete = false;
          session_id = 0;
        }))
    × ((k : ℕ) → k ≢ id → get_timer k m ≡ get_timer k two_timers)
    × (m.timer_heap ≡ push (add64 50 30, id) two_timers.timer_heap)
create_timer-fresh_example = create_timer-fresh 50 30 1 two_timers two_timers-room (omega arith)

on_tick-due_example :
    ((on_tick any_type 150 two_timers).0 ≡ live any_type (λ k. get_timer k two_timers) (5 ∷ []))
    × ((on_tick any_type 150 two_timers).1.timer_heap ≡ (200, 6) ∷ [])
    × ((k : ℕ)
        → get_timer k (on_tick any_type 150 two_timers).1
          ≡ (if mem k (5 ∷ []) then none else get_timer k two_timers))
on_tick-due_example =
    on_tick-due any_type 150 0 two_timers (omega arith, (omega arith, tt)) (refl, (refl, tt))

on_tick-release_timer_example :
    mem 5 (map (λ t. t.timer_id) (on_tick any_type 150 (release_timer 5 two_timers)).0) ≡ false
on_tick-release_timer_example =
    on_tick-release_timer any_type 150 0 5 two_timers (omega arith, (omega arith, tt))
      (refl, (refl, tt)) two_timers-own

-- The sessions 1 and 2, made at 0 and at 400000.
abbrev two_sessions : SessionManager
two_sessions = record {
  sessions = record {
    max_size = 10;
    map =
        (1, record { session_id = 1; create_time = 0; timer_id = some 5 })
        ∷ (2, record { session_id = 2; create_time = 400000; timer_id = none })
        ∷ [];
  };
  cur_max_id = 2;
}

check_leak-keep_example :
    get_session 1 (check_leak 500000 (two_sessions, two_timers)).0
    ≡ keep 500000 (get_session 1 two_sessions)
check_leak-keep_example =
    check_leak-keep 500000 1 two_sessions two_timers (refl, (refl, tt)) (refl, (refl, tt))

-- The connection 3 of player 77.
abbrev conn : ClientConn
conn = record { conn_id = 3; uid = 77 }

abbrev one_conn : ClientConnManager
one_conn = record {
  conns = record { max_size = 10; map = (3, conn) ∷ [] };
  enable_uid_index = true;
  uid_to_conn_id_index = (77, 3) ∷ [];
}

one_conn-Indexed : Indexed one_conn
unfolding Dict.find
one_conn-Indexed = ((refl, tt), (refl, tt))

fresh_id : Manager.exist 4 one_conn.conns ≡ false
unfolding Manager.exist Dict.exist
fresh_id = refl

own_id : (c : ClientConn) → get_client_conn 3 one_conn ≡ some c → c.conn_id ≡ 3
unfolding get_client_conn Dict.find
own_id c e = ground (arith, e)

found_conn : get_client_conn_by_uid 77 one_conn ≡ some conn
unfolding get_client_conn_by_uid find_index_of conn_of get_client_conn Dict.find
found_conn = refl

release_client_conn-Indexed_example :
    Indexed (release_client_conn 3 one_conn).1
    × (get_client_conn 3 (release_client_conn 3 one_conn).1 ≡ none)
release_client_conn-Indexed_example =
    release_client_conn-Indexed 3 one_conn refl own_id one_conn-Indexed
