-- ===== src/Container/LinkedList.antt =====
-- `ListIterator` of dev/lsf/container/detail/impl_bidirectional_list.hpp and `List` of
-- dev/lsf/container/list.hpp. An iterator is a position; the state that it points to is the
-- argument of each call. A `bool` result comes with the new state. The destructor calls of `Erase`
-- do not change the state.
pub mod Holds
pub mod Sequence
pub mod Iterate
pub mod PopBack
use lsf.Prelude.{ℕ, zero, suc, Bool, true, false, Option, none, some, ◌==◌, not, if◌then◌else◌, ◌-◌}
use lsf.Container.ListState.{
  ListState, next, prev, set_data, get_new_node_and_insert, free_node, full, empty, get_data_ptr,
}

module _ {A : Type 0} where
  -- The body that `PushBack`, `PushFront` and `Insert` share behind the test for a full list.
  abbrev pub put : ListState A → ℕ → A → Bool × ListState A
  put s insert_pos v =
      let (pos, s') = get_new_node_and_insert s insert_pos in
      (true, record s' { nodes = set_data pos v s'.nodes })

  pub begin : ListState A → ℕ
  begin s = s.head_pos

  pub end : ListState A → ℕ
  end s = prev s.nodes s.head_pos

  pub get_front : ListState A → ℕ
  get_front s = s.head_pos

  pub get_back : ListState A → ℕ
  get_back s = prev s.nodes (prev s.nodes s.head_pos)

  pub push_back : ListState A → A → Bool × ListState A
  push_back s v = if full s then (false, s) else put s (prev s.nodes s.head_pos) v

  pub push_front : ListState A → A → Bool × ListState A
  push_front s v = if full s then (false, s) else put s s.head_pos v

  pub pop_front : ListState A → Bool × ListState A
  pop_front s = if empty s then (false, s) else (true, free_node s s.head_pos)

  pub pop_back : ListState A → Bool × ListState A
  pop_back s = if empty s then (false, s) else (true, free_node s (prev s.nodes s.head_pos))

  pub insert : ListState A → ℕ → A → Bool × ListState A
  insert s iter v = if full s then (false, s) else put s iter v

  pub erase : ListState A → ℕ → Bool × ListState A
  erase s iter = if empty s then (false, s) else (true, free_node s iter)

  -- `while (iter != iter_ed)`, on fuel; `none` means that the fuel ran out.
  pub erase_range : ℕ → ListState A → ℕ → ℕ → Option (Bool × ListState A)
  erase_range zero s iter iter_ed = none
  erase_range (suc fuel) s iter iter_ed =
      let (done, s') = erase s iter in
      let rest = erase_range fuel s' (next s.nodes iter) iter_ed in
      if iter == iter_ed then some (true, s) else (if done then rest else some (false, s'))

  -- The loop of `Find`, on fuel. `none` is a read through a null pointer, or the end of the fuel;
  -- `same` is the `==` of the element type.
  find_loop : (A → A → Bool) → ℕ → ListState A → ℕ → A → Option ℕ
  find_loop same zero s pos v = none
  find_loop same (suc fuel) s pos v =
      let rest = find_loop same fuel s (next s.nodes pos) v in
      if pos == end s
      then some (end s)
      else elim (get_data_ptr s pos) [ none ↦ none | some w ↦ if same w v then some pos else rest ]

  pub find : (A → A → Bool) → ListState A → A → Option ℕ
  unfolding find_loop
  find same s v = find_loop same s.max_size s s.head_pos v

  -- `++iter` and `--iter`, and `diff` of them.
  pub advance : ListState A → ℕ → ℕ → ℕ
  advance s iter zero = iter
  advance s iter (suc diff) = advance s (next s.nodes iter) diff

  pub retreat : ListState A → ℕ → ℕ → ℕ
  retreat s iter zero = iter
  retreat s iter (suc diff) = retreat s (prev s.nodes iter) diff
