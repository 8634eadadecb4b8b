-- ===== src/Container/RedBlackTree/Fixup.antt =====
-- `GetNewNodeAndInsert` and `InsertFixup` of `RBTreeState`.
use lsf.Prelude.{ℕ, zero, suc, ◌*◌, ◌&&◌, Option, none, some, ◌==◌, if◌then◌else◌, add64}
use lsf.Container.RedBlackTree.{
  black, red, TreeState, npos, is_red, is_black, get_lchild, get_rchild, get_parent, get_color,
  get_data, set_lchild, set_rchild, set_parent, set_color, rotate_left, rotate_right, get_brother,
  get_node_from_empty_list,
}
use lsf.Container.RedBlackTree.Find.{Order, find_node}

module _ {A : Type 0} where
  -- Case [5]: recolour and rotate the grandparent.
  unfoldable pub fixup_outer : ℕ → ℕ → TreeState A → TreeState A
  fixup_outer parent grand t =
      let t1 = set_color grand red (set_color parent black t) in
      if parent == get_lchild t1 grand then rotate_right grand t1 else rotate_left grand t1

  -- The recursion is on fuel; `none` means that it ran out. The two tests in a row are the same, as
  -- in the source, so the second branch is never taken.
  unfoldable pub insert_fixup : ℕ → ℕ → TreeState A → Option (TreeState A)
  insert_fixup zero new t = none
  insert_fixup (suc fuel) new t =
      let parent = get_parent t new in
      let grand = get_parent t parent in
      let uncle = get_brother t parent in
      let up =
        insert_fixup fuel grand
          (set_color grand red (set_color parent black (set_color uncle black t))) in
      let turn_left = insert_fixup fuel parent (rotate_left parent t) in
      let turn_right = insert_fixup fuel parent (rotate_right parent t) in
      if parent == npos
      then some (set_color new black t)
      else (if is_black (get_color t parent)
          then some t
          else (if is_red (get_color t uncle)
              then up
              else (if (get_rchild t parent == new) && (get_lchild t grand == parent)
                  then turn_left
                  else (if (get_rchild t parent == new) && (get_lchild t grand == parent)
                      then turn_right
                      else some (fixup_outer parent grand t)))))

  -- The new node is linked below `parent`, before its value is stored.
  unfoldable pub link_new : Order A → A → ℕ → ℕ → TreeState A → TreeState A
  link_new o v new parent t =
      let t1 =
        set_color new red (set_parent new parent (set_rchild new npos (set_lchild new npos t))) in
      if parent == npos
      then record t1 { root_pos = new }
      else (if o.less (get_data t1 parent) v
          then set_rchild parent new t1
          else set_lchild parent new t1)

  -- The position of the new node, or NPOS if the value is there already.
  unfoldable pub get_new_node_and_insert : Order A → A → TreeState A → Option (ℕ × TreeState A)
  get_new_node_and_insert o v t = elim (find_node o t v) [
    | none ↦ none
    | some (pos, parent) ↦
        let (new, t1) = get_node_from_empty_list (record t { size = add64 t.size 1 }) in
        let fixed = insert_fixup (2 * t.max_size) new (link_new o v new parent t1) in
        if pos == npos
        then elim fixed [ none ↦ none | some t2 ↦ some (new, t2) ]
        else some (npos, t)
  ]
