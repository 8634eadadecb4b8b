-- ===== src/Container/ObjectPool.antt =====
-- `Pool` of dev/lsf/container/pool.hpp: a list state used as an allocator of positions. A call that
-- throws leaves the state as it was.
pub mod Blocks
use lsf.Prelude.{ℕ, Bool, true, false, Option, none, some, if◌then◌else◌}
use lsf.Container.ListState.{
  ListState, prev, set_data, get_new_node_and_insert, free_node, full, get_data_ptr,
}

-- `std::runtime_error` is `thrown`.
pub data Outcome (A : Type 0) : Type 0 where
  ok : A → Outcome A
  thrown : Outcome A

module _ {A : Type 0} where
  -- `Malloc(val)`; `Malloc()` is the same with a default element.
  pub malloc : ListState A → A → Outcome (ℕ × ListState A)
  malloc s v =
      if full s
      then thrown
      else let (pos, s') = get_new_node_and_insert s (prev s.nodes s.head_pos) in
        ok (pos, record s' { nodes = set_data pos v s'.nodes })

  pub free : ListState A → ℕ → Outcome (Bool × ListState A)
  free s index = elim (get_data_ptr s index) [
    | none ↦ thrown
    | some _ ↦ ok (true, free_node s index)
  ]

  unfoldable pub get_ptr : ListState A → ℕ → Option A
  get_ptr s index = get_data_ptr s index

  pub get : ListState A → ℕ → Outcome A
  get s index = elim (get_data_ptr s index) [ none ↦ thrown | some v ↦ ok v ]
