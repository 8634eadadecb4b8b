-- ===== src/Examples/Database.antt =====
-- A data server whose database is a pair of functions, with one record.
use lsf.Prelude.{
  ℕ, ◌%◌, ◌^◌, ◌<◌, true, false, ◌&&◌, none, some, ◌==◌, if◌then◌else◌, ◌≡◌, ◌≢◌, add64, arith,
  refl, ◌⊎◌,
}
use lsf.Server.Messages.{
  DbData, no_data, ControlInfo, ok_result, leveldb_failed, already_lock, or_zero, Response,
  query_req, insert_req,
}
use lsf.Server.DataServer.{
  Read, found, not_found, LevelDb, Env, update_timeout_lock, reply, query_control, query_data,
  query_content, query_locked, on_query, save, on_update, serve, Laws,
}
use lsf.Server.DataServer.Locks.{serve-Frame}
use lsf.Server.DataServer.Runs.{Quiet, query-exclusive, update-exclusive}
use lsf.Server.DataServer.Updates.{Kept}
use lsf.Server.DataServer.Writes.{no-lost-update, on_update-on_query, on_update-unchanged}
use lsf.Server.Handler.Handles.{fill, new_handle}
use lsf.Server.Transactions.{update-after_query}

record Store : Type 0 where
  control : ℕ → ℕ → Read ControlInfo
  content : ℕ → ℕ → Read DbData

abbrev write : {A : Type 0} → ℕ → ℕ → Read A → (ℕ → ℕ → Read A) → ℕ → ℕ → Read A
write t i r f t' i' = if (t == t') && (i == i') then r else f t' i'

abbrev store_db : LevelDb Store
store_db = record {
  read_control = λ t i s. s.control t i;
  read_data = λ t i s. s.content t i;
  put_control = λ t i c s. some (record s { control = write t i (found c) s.control });
  put_both = λ t i c d s. some (record s {
    control = write t i (found c) s.control;
    content = write t i (found d) s.content;
  });
  delete_control = λ t i s. some (record s { control = write t i not_found s.control });
  delete_data = λ t i s. some (record s { content = write t i not_found s.content });
}

store_db-Laws : Laws store_db
store_db-Laws = record {
  control-put_control = λ t i t' i' c s s' e. ground (arith, e);
  data-put_control = λ t i t' i' c s s' e. ground (arith, e);
  control-put_both = λ t i t' i' c d s s' e. ground (arith, e);
  data-put_both = λ t i t' i' c d s s' e. ground (arith, e);
  control-delete_control = λ t i t' i' s s' e. ground (arith, e);
  control-delete_data = λ t i t' i' s s' e. ground (arith, e);
}

-- The record 5 of the robots, at version 2.
abbrev one_record : Store
one_record = record {
  control = λ t i.
      if (t == 3) && (i == 5)
      then found
          (record { version = 2; update_time = 9; last_lock_id = none; last_lock_time = none })
      else not_found;
  content = λ t i.
      if (t == 3) && (i == 5)
      then found
          (record { robot_data = some (record { uid = some 5; last_init_chips_time = some 8 }) })
      else not_found;
}

-- The first moment and a later one.
abbrev early : Env
early = record { now_milli = 100; now_second = 1; lock_timeout = 1000; random_lock = 7 }

abbrev late : Env
late = record { now_milli = 900; now_second = 2; lock_timeout = 1000; random_lock = 8 }

abbrev robot : DbData
robot = record { robot_data = some (record { uid = some 5; last_init_chips_time = some 30 }) }

abbrev locked_answer : Response × Store
locked_answer = on_query store_db early 3 5 none true one_record

-- In between somebody asks for the record and tries to insert it.
abbrev in_between : Store
in_between =
    (serve store_db late (insert_req 3 5 no_data)
      (serve store_db late (query_req 3 5 none true) locked_answer.1).1).1

quiet : Quiet store_db 3 5 7 100 locked_answer.1 in_between
quiet =
    Quiet.next (serve store_db late (query_req 3 5 none true) locked_answer.1).1
      (Quiet.next locked_answer.1 Quiet.stay late (query_req 3 5 none true) refl refl) late
      (insert_req 3 5 no_data) refl refl

granted : locked_answer.0.result ≡ ok_result
unfolding on_query query_control update_timeout_lock query_locked query_content query_data
granted = refl

query-exclusive_example : (on_query store_db late 3 5 none true in_between).0.result ≡ already_lock
query-exclusive_example =
    query-exclusive store_db store_db-Laws early late 3 5 none none one_record in_between granted
      quiet refl

update-exclusive_example : (on_update store_db late 3 5 2 0 robot in_between).0.result ≢ ok_result
update-exclusive_example =
    update-exclusive store_db store_db-Laws early late 3 5 2 0 none robot one_record in_between
      granted quiet refl refl

version_is_small :
    (c : ControlInfo) → store_db.read_control 3 5 locked_answer.1 ≡ found c → c.version < 2 ^ 32
unfolding on_query query_control update_timeout_lock query_locked query_content query_data
version_is_small c e = ground (arith, e)

update-after_query_example :
    ((on_update store_db late 3 5
        (or_zero (fill locked_answer.0 (new_handle 3 5)).version)
        (or_zero (fill locked_answer.0 (new_handle 3 5)).lock_id)
        robot
        in_between).0.result
      ≡ ok_result)
    ⊎ ((on_update store_db late 3 5
          (or_zero (fill locked_answer.0 (new_handle 3 5)).version)
          (or_zero (fill locked_answer.0 (new_handle 3 5)).lock_id)
          robot
          in_between).0.result
        ≡ leveldb_failed)
update-after_query_example =
    update-after_query store_db store_db-Laws early late 3 5 none robot (new_handle 3 5) one_record
      in_between granted version_is_small quiet refl

abbrev updated : Response × Store
updated = on_update store_db early 3 5 2 0 robot one_record

accepted : updated.0.result ≡ ok_result
unfolding on_update query_control update_timeout_lock save
accepted = refl

kept : Kept store_db 3 5 updated.1 1 (serve store_db late (query_req 3 5 none true) updated.1).1
kept = Kept.next 0 updated.1 Kept.stay late (query_req 3 5 none true) refl

no-lost-update_example :
    (on_update store_db late 3 5 2 8 robot
      (serve store_db late (query_req 3 5 none true) updated.1).1).0.result
    ≢ ok_result
no-lost-update_example =
    no-lost-update store_db store_db-Laws early late 3 5 2 0 8 1 robot robot one_record
      (serve store_db late (query_req 3 5 none true) updated.1).1 accepted kept (omega arith)

on_update-on_query_example : on_query store_db late 3 5 none false updated.1 ≡ (
  record (reply 3 5 ok_result) { version = some (add64 2 1 % 2 ^ 32); content = robot },
  updated.1,
)
on_update-on_query_example =
    on_update-on_query store_db store_db-Laws early late 3 5 2 0 robot one_record accepted

stale : (on_update store_db early 3 5 1 0 robot one_record).0.result ≢ ok_result
unfolding on_update query_control update_timeout_lock save
stale e = ground (arith, e)

on_update-unchanged_example : (on_update store_db early 3 5 1 0 robot one_record).1 ≡ one_record
on_update-unchanged_example =
    on_update-unchanged store_db store_db-Laws early 3 5 1 0 robot one_record stale

serve-Frame_example :
    store_db.read_control 3 6 (serve store_db early (query_req 3 5 none true) one_record).1
    ≡ store_db.read_control 3 6 one_record
serve-Frame_example =
    serve-Frame store_db store_db-Laws early (query_req 3 5 none true) one_record 3 6 refl
