-- ===== src/Container/RedBlackTree/Erase.antt =====
-- `EraseNode` and `EraseFixup` of `RBTreeState`.
use lsf.Prelude.{ℕ, zero, suc, ◌+◌, ◌&&◌, not, Option, none, some, ◌==◌, if◌then◌else◌, sub64}
use lsf.Container.RedBlackTree.{
  Color, black, red, TreeState, npos, is_red, is_black, get_lchild, get_rchild, get_parent,
  get_color, get_data, set_color, set_data, rotate_left, rotate_right, get_brother_of,
  delete_and_free_node,
}
use lsf.Container.RedBlackTree.Find.{find_biggest_pos}

module _ {A : Type 0} where
  -- Case [1]: a red brother is rotated up.
  unfoldable pub fixup_red_brother : ℕ → ℕ → TreeState A → TreeState A
  fixup_red_brother parent pos t =
      let recolored =
        λ (brother : ℕ) (u : TreeState A). set_color brother black (set_color parent red u) in
      let b1 = get_brother_of t parent pos in
      let t1 =
        if is_red (get_color t b1) && (get_lchild t parent == pos)
        then rotate_left parent (recolored b1 t)
        else t in
      let b2 = get_brother_of t1 parent pos in
      if is_red (get_color t1 b2) && (get_rchild t1 parent == pos)
      then rotate_right parent (recolored b2 t1)
      else t1

  -- Case [4]: the red child of the brother is turned to the outside.
  unfoldable pub fixup_inner : ℕ → ℕ → TreeState A → TreeState A
  fixup_inner parent pos t =
      let b1 = get_brother_of t parent pos in
      let l1 = get_lchild t b1 in
      let r1 = get_rchild t b1 in
      let t1 =
        if (get_lchild t parent == pos) && (is_red (get_color t l1) && is_black (get_color t r1))
        then rotate_right b1 (set_color l1 black (set_color b1 red t))
        else t in
      let b2 = get_brother_of t1 parent pos in
      let l2 = get_lchild t1 b2 in
      let r2 = get_rchild t1 b2 in
      if (get_rchild t1 parent == pos) && (is_black (get_color t1 l2) && is_red (get_color t1 r2))
      then rotate_left b2 (set_color r2 black (set_color b2 red t1))
      else t1

  -- Case [5]: the brother takes the parent's place.
  unfoldable pub fixup_last : ℕ → ℕ → TreeState A → TreeState A
  fixup_last parent pos t =
      let b = get_brother_of t parent pos in
      let l = get_lchild t b in
      let r = get_rchild t b in
      let t1 =
        if (get_lchild t parent == pos) && is_red (get_color t r)
        then rotate_left parent
            (set_color r black (set_color parent black (set_color b (get_color t parent) t)))
        else t in
      if (get_rchild t1 parent == pos) && is_red (get_color t1 l)
      then rotate_right parent
          (set_color l black (set_color parent black (set_color b (get_color t1 parent) t1)))
      else t1

  abbrev color_unless_npos : ℕ → Color → TreeState A → TreeState A
  color_unless_npos pos c t = if pos == npos then t else set_color pos c t

  -- On fuel; `none` means that it ran out.
  unfoldable pub erase_fixup : ℕ → ℕ → ℕ → TreeState A → Option (TreeState A)
  erase_fixup zero parent pos t = none
  erase_fixup (suc fuel) parent pos t =
      let t1 = fixup_red_brother parent pos t in
      let brother = get_brother_of t1 parent pos in
      let kin_black =
        is_black (get_color t1 brother)
        && (is_black (get_color t1 (get_lchild t1 brother))
            && is_black (get_color t1 (get_rchild t1 brother))) in
      let t2 = color_unless_npos brother red t1 in
      let up = erase_fixup fuel (get_parent t2 parent) parent t2 in
      if parent == npos
      then some t
      else (if is_black (get_color t1 parent) && kin_black
          then up
          else (if is_red (get_color t1 parent) && kin_black
              then some (color_unless_npos brother red (set_color parent black t1))
              else some (fixup_last parent pos (fixup_inner parent pos t1))))

  -- What follows once the node to remove has at most one child.
  unfoldable pub erase_thin : ℕ → ℕ → ℕ → ℕ → TreeState A → Option (TreeState A)
  erase_thin pos parent lchild rchild t =
      let c = get_color t pos in
      if is_red c
      then some (
          delete_and_free_node pos
            (if lchild == npos then (if rchild == npos then npos else rchild) else lchild) t)
      else (if is_black c
          then (if is_red (get_color t lchild)
              then some (delete_and_free_node pos lchild (set_color lchild black t))
              else (if is_red (get_color t rchild)
                  then some (delete_and_free_node pos rchild (set_color rchild black t))
                  else (let child = if lchild == npos then rchild else lchild in
                      erase_fixup (t.max_size + 1) parent child
                        (delete_and_free_node pos child t))))
          else some t)

  unfoldable pub erase_node : ℕ → ℕ → TreeState A → Option (TreeState A)
  erase_node pos parent t0 =
      let t = record t0 { size = sub64 t0.size 1 } in
      let lchild = get_lchild t pos in
      let rchild = get_rchild t pos in
      if not (lchild == npos) && not (rchild == npos)
      then elim (find_biggest_pos t lchild) [
        | none ↦ none
        | some big ↦
            let t1 = set_data pos (get_data t big) t in
            erase_thin big (get_parent t1 big) (get_lchild t1 big) (get_rchild t1 big) t1
      ]
      else erase_thin pos parent lchild rchild t
