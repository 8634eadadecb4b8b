-- ===== src/Container/RedBlackTree/Find.antt =====
-- The searches of `RBTreeState`. Each loop runs on fuel; `none` means that it ran out.
use lsf.Prelude.{ℕ, zero, suc, ◌+◌, Bool, Option, none, some, ◌==◌, if◌then◌else◌}
use lsf.Container.RedBlackTree.{TreeState, npos, get_lchild, get_rchild, get_parent, get_data}

-- The `==` and `<` of the element type.
pub record Order (A : Type 0) : Type 0 where
  pub same : A → A → Bool
  pub less : A → A → Bool

module _ {A : Type 0} where
  -- The position of the value, or NPOS, and the last node before it.
  unfoldable pub find_loop : Order A → ℕ → TreeState A → A → ℕ → ℕ → Option (ℕ × ℕ)
  find_loop o zero t v pos parent = none
  find_loop o (suc fuel) t v pos parent =
      let right = find_loop o fuel t v (get_rchild t pos) pos in
      let left = find_loop o fuel t v (get_lchild t pos) pos in
      if pos == npos
      then some (pos, parent)
      else (if o.same (get_data t pos) v
          then some (pos, parent)
          else (if o.less (get_data t pos) v then right else left))

  unfoldable pub find_node : Order A → TreeState A → A → Option (ℕ × ℕ)
  find_node o t v = find_loop o (t.max_size + 1) t v t.root_pos npos

  unfoldable pub smallest_loop : ℕ → TreeState A → ℕ → Option ℕ
  smallest_loop zero t pos = none
  smallest_loop (suc fuel) t pos =
      let rest = smallest_loop fuel t (get_lchild t pos) in
      if get_lchild t pos == npos then some pos else rest

  unfoldable pub find_smallest_pos : TreeState A → ℕ → Option ℕ
  find_smallest_pos t from = if from == npos then some npos else smallest_loop t.max_size t from

  unfoldable pub biggest_loop : ℕ → TreeState A → ℕ → Option ℕ
  biggest_loop zero t pos = none
  biggest_loop (suc fuel) t pos =
      let rest = biggest_loop fuel t (get_rchild t pos) in
      if get_rchild t pos == npos then some pos else rest

  unfoldable pub find_biggest_pos : TreeState A → ℕ → Option ℕ
  find_biggest_pos t from = if from == npos then some npos else biggest_loop t.max_size t from

  -- `while (GetParentPos(pos) != NPOS)`, up to the first node that is a left child.
  unfoldable pub climb_big : ℕ → TreeState A → ℕ → Option ℕ
  climb_big zero t pos = none
  climb_big (suc fuel) t pos =
      let rest = climb_big fuel t (get_parent t pos) in
      if get_parent t pos == npos
      then some npos
      else (if get_lchild t (get_parent t pos) == pos then some (get_parent t pos) else rest)

  unfoldable pub find_next_big_pos : TreeState A → ℕ → Option ℕ
  find_next_big_pos t pos =
      if pos == npos
      then find_smallest_pos t t.root_pos
      else (if get_rchild t pos == npos
          then climb_big t.max_size t pos
          else find_smallest_pos t (get_rchild t pos))

  unfoldable pub climb_small : ℕ → TreeState A → ℕ → Option ℕ
  climb_small zero t pos = none
  climb_small (suc fuel) t pos =
      let rest = climb_small fuel t (get_parent t pos) in
      if get_parent t pos == npos
      then some npos
      else (if get_rchild t (get_parent t pos) == pos then some (get_parent t pos) else rest)

  unfoldable pub find_next_small_pos : TreeState A → ℕ → Option ℕ
  find_next_small_pos t pos =
      if pos == npos
      then find_biggest_pos t t.root_pos
      else (if get_lchild t pos == npos
          then climb_small t.max_size t pos
          else find_biggest_pos t (get_lchild t pos))
