-- ===== src/Container/RedBlackTree.antt =====
-- `RBTreeNode` and `RBTreeState` of dev/lsf/container/detail/impl_red_black_tree.hpp: a binary
-- search tree with parent links in one block of nodes, 0 standing for no node, and a ring of the
-- unused nodes that uses the child links. The block is a function from positions to nodes.
pub mod Find
pub mod Search
pub mod InnerChild
pub mod Fixup
pub mod Erase
use lsf.Prelude.{
  ℕ, zero, suc, ◌+◌, ◌-◌, ◌*◌, ◌/◌, ◌%◌, ◌^◌, Bool, true, false, ◌==◌, if◌then◌else◌, update, add64,
  sub64, ◌&&◌, not,
}

-- `BLACK`, `RED` and `EMPTY`.
pub data Color : Type 0 where
  black red empty_node : Color

pub record Node (A : Type 0) : Type 0 where
  pub lchild_pos : ℕ
  pub rchild_pos : ℕ
  pub parent_pos : ℕ
  pub value : A
  pub color : Color

pub record TreeState (A : Type 0) : Type 0 where
  pub size : ℕ
  pub max_size : ℕ
  pub elem_byte_size : ℕ
  pub root_pos : ℕ
  pub empty_head_pos : ℕ
  pub nodes : ℕ → Node A

abbrev pub npos : ℕ
npos = 0

abbrev pub is_red : Color → Bool
is_red black = false
is_red red = true
is_red empty_node = false

abbrev pub is_black : Color → Bool
is_black black = true
is_black red = false
is_black empty_node = false

module _ {A : Type 0} where
  abbrev pub get_lchild : TreeState A → ℕ → ℕ
  get_lchild t pos = if pos == npos then npos else (t.nodes pos).lchild_pos

  abbrev pub get_rchild : TreeState A → ℕ → ℕ
  get_rchild t pos = if pos == npos then npos else (t.nodes pos).rchild_pos

  abbrev pub get_parent : TreeState A → ℕ → ℕ
  get_parent t pos = (t.nodes pos).parent_pos

  abbrev pub get_color : TreeState A → ℕ → Color
  get_color t pos = (t.nodes pos).color

  abbrev pub get_data : TreeState A → ℕ → A
  get_data t pos = (t.nodes pos).value

  unfoldable pub set_lchild : ℕ → ℕ → TreeState A → TreeState A
  set_lchild pos to t = record t {
    nodes = update t.nodes pos (record (t.nodes pos) { lchild_pos = to });
  }

  unfoldable pub set_rchild : ℕ → ℕ → TreeState A → TreeState A
  set_rchild pos to t = record t {
    nodes = update t.nodes pos (record (t.nodes pos) { rchild_pos = to });
  }

  unfoldable pub set_parent : ℕ → ℕ → TreeState A → TreeState A
  set_parent pos to t = record t {
    nodes = update t.nodes pos (record (t.nodes pos) { parent_pos = to });
  }

  unfoldable pub set_color : ℕ → Color → TreeState A → TreeState A
  set_color pos c t = record t { nodes = update t.nodes pos (record (t.nodes pos) { color = c }) }

  unfoldable pub set_data : ℕ → A → TreeState A → TreeState A
  set_data pos v t = record t { nodes = update t.nodes pos (record (t.nodes pos) { value = v }) }

  -- `for (pos = 1; pos < _max_size; pos++)`, by the rounds left.
  unfoldable pub make_empty_list : ℕ → ℕ → TreeState A → TreeState A
  make_empty_list zero pos t = t
  make_empty_list (suc k) pos t =
      make_empty_list k (pos + 1)
        (set_color pos empty_node (set_rchild pos (add64 pos 1) (set_lchild pos (sub64 pos 1) t)))

  -- The sizes of the state, of a node and of an element; `raw` is what the storage holds before.
  unfoldable pub init : ℕ → ℕ → ℕ → (ℕ → Node A) → ℕ → TreeState A
  init state_bytes node_bytes elem_bytes raw byte_size =
      let max_size = sub64 byte_size state_bytes / node_bytes in
      let t0 : TreeState A = record {
        size = 0;
        max_size = max_size;
        elem_byte_size = elem_bytes;
        root_pos = npos;
        empty_head_pos = 1;
        nodes = raw;
      } in
      let t1 = make_empty_list (max_size - 1) 1 t0 in
      let t2 = set_rchild (sub64 max_size 1) 1 (set_lchild 1 (sub64 max_size 1) t1) in
      set_rchild npos npos (set_lchild npos npos (set_parent npos npos (set_color npos black t2)))

  -- The link to `pos` in its parent, or the root, is led to `to`.
  unfoldable pub replace_child : ℕ → ℕ → ℕ → TreeState A → TreeState A
  replace_child parent pos to t =
      if parent == npos
      then record t { root_pos = to }
      else (if pos == get_lchild t parent then set_lchild parent to t else set_rchild parent to t)

  unfoldable pub rotate_right : ℕ → TreeState A → TreeState A
  rotate_right pos t =
      let parent = get_parent t pos in
      let lpos = get_lchild t pos in
      let lrpos = get_rchild t lpos in
      let t1 = replace_child parent pos lpos t in
      let t2 = set_rchild lpos pos (set_parent lpos parent t1) in
      let t3 = set_lchild pos lrpos (set_parent pos lpos t2) in
      if lrpos == npos then t3 else set_parent lrpos pos t3

  unfoldable pub rotate_left : ℕ → TreeState A → TreeState A
  rotate_left pos t =
      let parent = get_parent t pos in
      let rpos = get_rchild t pos in
      let rlpos = get_lchild t rpos in
      let t1 = replace_child parent pos rpos t in
      let t2 = set_lchild rpos pos (set_parent rpos parent t1) in
      let t3 = set_rchild pos rlpos (set_parent pos rpos t2) in
      if rlpos == npos then t3 else set_parent rlpos pos t3

  unfoldable pub get_brother : TreeState A → ℕ → ℕ
  get_brother t pos =
      if pos == npos
      then npos
      else (if get_lchild t (get_parent t pos) == pos
          then get_rchild t (get_parent t pos)
          else get_lchild t (get_parent t pos))

  -- The overload for a position that may be NPOS.
  unfoldable pub get_brother_of : TreeState A → ℕ → ℕ → ℕ
  get_brother_of t parent pos =
      if pos == npos
      then (if get_lchild t parent == npos then get_rchild t parent else get_lchild t parent)
      else get_brother t pos

  unfoldable pub get_node_from_empty_list : TreeState A → ℕ × TreeState A
  get_node_from_empty_list t =
      let pos = t.empty_head_pos in
      if get_rchild t pos == pos
      then (pos, record t { empty_head_pos = npos })
      else let t1 = set_lchild (get_rchild t pos) (get_lchild t pos) t in
        let t2 = set_rchild (get_lchild t1 pos) (get_rchild t1 pos) t1 in
        (pos, record t2 { empty_head_pos = get_rchild t2 pos })

  unfoldable pub insert_node_to_empty_list : ℕ → TreeState A → TreeState A
  insert_node_to_empty_list pos t =
      let head = t.empty_head_pos in
      let t1 =
        if head == npos
        then set_lchild pos pos (set_rchild pos pos t)
        else (let u1 = set_rchild pos head t in
            let u2 = set_lchild pos (get_lchild u1 head) u1 in
            let u3 = set_lchild (get_rchild u2 pos) pos u2 in
            set_rchild (get_lchild u3 pos) pos u3) in
      let t2 = set_color pos empty_node (set_parent pos npos t1) in
      record t2 { empty_head_pos = pos }

  unfoldable pub delete_and_free_node : ℕ → ℕ → TreeState A → TreeState A
  delete_and_free_node pos replace_pos t =
      let parent = get_parent t pos in
      let t1 =
        if parent == npos
        then record t { root_pos = replace_pos }
        else (if get_lchild t parent == pos
            then set_lchild parent replace_pos t
            else set_rchild parent replace_pos t) in
      let t2 = if replace_pos == npos then t1 else set_parent replace_pos parent t1 in
      if pos == npos then t else insert_node_to_empty_list pos t2

  unfoldable pub full : TreeState A → Bool
  full t = t.size == sub64 t.max_size 1

  unfoldable pub empty : TreeState A → Bool
  empty t = t.size == 0
