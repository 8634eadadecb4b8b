-- ===== src/Manager.antt =====
-- The object managers of dev/svr/common: `BasicManager` of basic_manager.h with `Init` and `Release`
-- left out, which copy the objects to and from shared memory.
pub mod Ids
pub mod Timers
pub mod Sessions
pub mod Clients
use lsf.Prelude.{ℕ, Bool, length, leb}
use lsf.Prelude.Dict.{Dict}
use lsf.Prelude.Dict

pub record Manager (V : Type 0) : Type 0 where
  pub max_size : ℕ
  pub map : Dict V

module _ {V : Type 0} where
  unfoldable pub full : Manager V → Bool
  full m = leb m.max_size (length m.map)

  unfoldable pub exist : ℕ → Manager V → Bool
  exist k m = Dict.exist k m.map

  unfoldable pub put : ℕ → V → Manager V → Manager V
  put k v m = record m { map = Dict.insert k v m.map }

  unfoldable pub erase : ℕ → Manager V → Manager V
  erase k m = record m { map = Dict.erase k m.map }
