-- ===== src/Examples/Trees.antt =====
-- Trees of three nodes.
use lsf.Prelude.{ℕ, ◌≡◌, refl, arith, ◌==◌, ltb, if◌then◌else◌, some}
use lsf.Container.RedBlackTree.{Color, black, red, Node, TreeState, get_rchild, get_color}
use lsf.Container.RedBlackTree.Find.{Order, find_node}
use lsf.Container.RedBlackTree.Fixup.{insert_fixup}
use lsf.Container.RedBlackTree.Search.{
  Shape, leaf, fork, Linked, Sorted, Congruent, Answer, find_node-Answer,
}
use lsf.Container.RedBlackTree.InnerChild.{Inner, insert_fixup-two_reds}

abbrev by_number : Order ℕ
by_number = record { same = ◌==◌; less = ltb }

abbrev node : ℕ → ℕ → ℕ → ℕ → Color → Node ℕ
node l r up v c = record { lchild_pos = l; rchild_pos = r; parent_pos = up; value = v; color = c }

abbrev block : (ℕ → Node ℕ) → TreeState ℕ
block nodes = record {
  size = 3;
  max_size = 5;
  elem_byte_size = 8;
  root_pos = 2;
  empty_head_pos = 4;
  nodes = nodes;
}

-- The values 10, 20 and 30 at the positions 1, 2 and 3.
abbrev even_tree : TreeState ℕ
even_tree = block (λ pos.
    if pos == 2
    then node 1 3 0 20 black
    else if pos == 1
    then node 0 0 2 10 red
    else if pos == 3
    then node 0 0 2 30 red
    else node 0 0 0 0 black)

abbrev even_shape : Shape
even_shape = fork 2 (fork 1 leaf leaf) (fork 3 leaf leaf)

by_number-Congruent : Congruent by_number
by_number-Congruent p x v e = ground (arith, e)

even_tree-Linked : Linked even_tree even_shape 2 0
even_tree-Linked = ground arith

even_tree-Sorted : Sorted by_number even_tree even_shape
even_tree-Sorted = ground arith

find_node-Answer_example :
    (found : ℕ) × (last : ℕ) × (find_node by_number even_tree 30 ≡ some (found, last))
    × Answer by_number even_tree 30 even_shape found
find_node-Answer_example =
    find_node-Answer by_number even_tree 30 even_shape by_number-Congruent even_tree-Linked
      even_tree-Sorted (omega arith)

-- 20 is linked in below 30, the right child of the root 10.
abbrev bent : TreeState ℕ
bent = block (λ pos.
    if pos == 2
    then node 0 3 0 10 black
    else if pos == 3
    then node 1 0 2 30 red
    else if pos == 1
    then node 0 0 3 20 red
    else node 0 0 0 0 black)

bent-Inner : Inner bent 1 3 2
bent-Inner = record {
  up = refl;
  up_up = refl;
  left_child = refl;
  other_child = omega arith;
  right_child = refl;
  uncle_differs = omega arith;
  uncle_black = refl;
  red_new = refl;
  red_parent = refl;
  parent_there = omega arith;
  grand_there = omega arith;
  apart = (omega arith, omega arith, omega arith);
}

insert_fixup-two_reds_example :
    (t : TreeState ℕ) × (insert_fixup 1 1 bent ≡ some t)
    × (get_rchild t 2 ≡ 1)
    × (get_color t 2 ≡ red)
    × (get_color t 1 ≡ red)
insert_fixup-two_reds_example = insert_fixup-two_reds 0 1 3 2 bent bent-Inner
