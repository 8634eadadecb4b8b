-- ===== src/Server/Messages.antt =====
-- The messages between a server and the data server, of dev/svr/proto/msg_ss.proto and
-- data_db.proto. An optional field that the code tests is an `Option`.
use lsf.Prelude.{ℕ, Bool, Option, none, some}

pub record RobotData : Type 0 where
  pub uid : Option ℕ
  pub last_init_chips_time : Option ℕ

-- `data::DB`.
pub record DbData : Type 0 where
  pub robot_data : Option RobotData

abbrev pub no_data : DbData
no_data = record { robot_data = none }

abbrev pub no_robot : RobotData
no_robot = record { uid = none; last_init_chips_time = none }

-- `DATA_TYPE_USER_DATA` and `DATA_TYPE_ROBOT_DATA`.
abbrev pub user_data_type : ℕ
user_data_type = 1

abbrev pub robot_data_type : ℕ
robot_data_type = 3

-- `DBControlInfo`.
pub record ControlInfo : Type 0 where
  pub version : ℕ
  pub update_time : ℕ
  pub last_lock_id : Option ℕ
  pub last_lock_time : Option ℕ

-- The values of `ENInternalError` that the data server answers with.
pub data Result : Type 0 where
  ok_result : Result
  version_not_match : Result
  leveldb_failed : Result
  already_lock : Result
  lock_not_match : Result
  already_has_data : Result

-- The default of an optional number.
abbrev pub or_zero : Option ℕ → ℕ
or_zero none = 0
or_zero (some n) = n

-- `QueryDataRsp`; the other answers use the first fields of it.
pub record Response : Type 0 where
  pub result : Result
  pub data_type : ℕ
  pub id : ℕ
  pub version : Option ℕ
  pub content : DbData
  pub lock_id : Option ℕ

-- The requests of SS messages to the data server.
pub data Request : Type 0 where
  query_req : (type id : ℕ) → (version : Option ℕ) → (need_lock : Bool) → Request
  update_req : (type id version lock_id : ℕ) → DbData → Request
  insert_req : (type id : ℕ) → DbData → Request
  delete_req : (type id : ℕ) → Request
  unlock_notify : (type id lock_id : ℕ) → Request
