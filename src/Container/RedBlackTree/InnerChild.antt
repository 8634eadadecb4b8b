-- ===== src/Container/RedBlackTree/InnerChild.antt =====
-- `RBTreeState::InsertFixup` on a left child below a right child.
use lsf.Prelude.{ℕ, suc, Bool, true, false, some, ◌==◌, if◌then◌else◌, arith, ◌≡◌, ◌≢◌, ◌∙◌, ap}
use lsf.Container.RedBlackTree.{
  Color, black, red, TreeState, npos, is_red, get_lchild, get_rchild, get_parent, get_color,
  set_lchild, set_rchild, set_parent, set_color, replace_child, rotate_left, get_brother,
}
use lsf.Container.RedBlackTree.Fixup.{fixup_outer, insert_fixup}

module _ {A : Type 0} where
  -- A red node that is the left child of a red right child, with a black uncle.
  pub record Inner (t : TreeState A) (new parent grand : ℕ) : Type 0 where
    pub up : get_parent t new ≡ parent
    pub up_up : get_parent t parent ≡ grand
    pub left_child : get_lchild t parent ≡ new
    pub other_child : get_rchild t parent ≢ new
    pub right_child : get_rchild t grand ≡ parent
    pub uncle_differs : get_lchild t grand ≢ parent
    pub uncle_black : is_red (get_color t (get_lchild t grand)) ≡ false
    pub red_new : get_color t new ≡ red
    pub red_parent : get_color t parent ≡ red
    pub parent_there : parent ≢ npos
    pub grand_there : grand ≢ npos
    pub apart : (new ≢ parent) × (new ≢ grand) × (parent ≢ grand)

  -- The call takes the last branch.
  insert_fixup-last :
      (fuel new parent grand : ℕ) (t : TreeState A)
      → Inner t new parent grand
      → insert_fixup (suc fuel) new t ≡ some (fixup_outer parent grand t)
  unfolding insert_fixup get_brother
  insert_fixup-last fuel new parent grand t i = ground (
    arith, i.up, i.up_up, i.left_child, i.other_child, i.right_child, i.uncle_differs,
    i.uncle_black, i.red_parent, i.parent_there, i.grand_there,
  )

  -- A fact of both branches is one of the test.
  both :
      (b : Bool) (x y : TreeState A) (P : TreeState A → Type 0) → P x → P y → P (if b then x else y)
  both true x y P u v = u
  both false x y P u v = v

  color-set_lchild : (p v q : ℕ) (t : TreeState A) → get_color (set_lchild p v t) q ≡ get_color t q
  unfolding set_lchild
  color-set_lchild p v q t = ground arith

  color-set_rchild : (p v q : ℕ) (t : TreeState A) → get_color (set_rchild p v t) q ≡ get_color t q
  unfolding set_rchild
  color-set_rchild p v q t = ground arith

  color-set_parent : (p v q : ℕ) (t : TreeState A) → get_color (set_parent p v t) q ≡ get_color t q
  unfolding set_parent
  color-set_parent p v q t = ground arith

  rchild-set_lchild :
      (p v q : ℕ) (t : TreeState A) → get_rchild (set_lchild p v t) q ≡ get_rchild t q
  unfolding set_lchild
  rchild-set_lchild p v q t = ground arith

  rchild-set_parent :
      (p v q : ℕ) (t : TreeState A) → get_rchild (set_parent p v t) q ≡ get_rchild t q
  unfolding set_parent
  rchild-set_parent p v q t = ground arith

  rchild-set_rchild : (p v : ℕ) (t : TreeState A) → p ≢ npos → get_rchild (set_rchild p v t) p ≡ v
  unfolding set_rchild
  rchild-set_rchild p v t h = ground arith

  color-replace_child :
      (parent pos to q : ℕ) (t : TreeState A)
      → get_color (replace_child parent pos to t) q ≡ get_color t q
  unfolding replace_child
  color-replace_child parent pos to q t =
      ground (arith, color-set_lchild parent to q t, color-set_rchild parent to q t)

  color-rotate_left :
      (pos q : ℕ) (t : TreeState A) → get_color (rotate_left pos t) q ≡ get_color t q
  unfolding rotate_left
  color-rotate_left pos q t =
      let rpos = get_rchild t pos in
      let rlpos = get_lchild t rpos in
      let t1 = replace_child (get_parent t pos) pos rpos t in
      let t2 = set_lchild rpos pos (set_parent rpos (get_parent t pos) t1) in
      let t3 = set_rchild pos rlpos (set_parent pos rpos t2) in
      let color3 : get_color t3 q ≡ get_color t q =
        color-set_rchild pos rlpos q (set_parent pos rpos t2)
        ∙ color-set_parent pos rpos q t2
        ∙ color-set_lchild rpos pos q (set_parent rpos (get_parent t pos) t1)
        ∙ color-set_parent rpos (get_parent t pos) q t1
        ∙ color-replace_child (get_parent t pos) pos rpos q t in
      both (rlpos == npos) t3 (set_parent rlpos pos t3) (λ x. get_color x q ≡ get_color t q) color3
        (color-set_parent rlpos pos q t3 ∙ color3)

  rchild-rotate_left :
      (pos : ℕ) (t : TreeState A)
      → pos ≢ npos
      → get_rchild (rotate_left pos t) pos ≡ get_lchild t (get_rchild t pos)
  unfolding rotate_left
  rchild-rotate_left pos t h =
      let rpos = get_rchild t pos in
      let rlpos = get_lchild t rpos in
      let t1 = replace_child (get_parent t pos) pos rpos t in
      let t2 = set_lchild rpos pos (set_parent rpos (get_parent t pos) t1) in
      let t3 = set_rchild pos rlpos (set_parent pos rpos t2) in
      let link3 : get_rchild t3 pos ≡ rlpos =
        rchild-set_rchild pos rlpos (set_parent pos rpos t2) h in
      both (rlpos == npos) t3 (set_parent rlpos pos t3) (λ x. get_rchild x pos ≡ rlpos) link3
        (rchild-set_parent rlpos pos pos t3 ∙ link3)

  color-set_color :
      (p q : ℕ) (c : Color) (t : TreeState A)
      → get_color (set_color p c t) q ≡ (if q == p then c else get_color t q)
  unfolding set_color
  color-set_color p q c t = ground arith

  links-set_color :
      (p q : ℕ) (c : Color) (t : TreeState A)
      → (get_lchild (set_color p c t) q ≡ get_lchild t q)
        × (get_rchild (set_color p c t) q ≡ get_rchild t q)
  unfolding set_color
  links-set_color p q c t = (ground arith, ground arith)

  last-rotate_left :
      (new parent grand : ℕ) (t : TreeState A)
      → Inner t new parent grand
      → fixup_outer parent grand t
        ≡ rotate_left grand (set_color grand red (set_color parent black t))
  unfolding fixup_outer
  last-rotate_left new parent grand t i = ground (
    arith,
    i.uncle_differs,
    (links-set_color grand grand red (set_color parent black t)).0,
    (links-set_color parent grand black t).0,
  )

  -- For a red node that is the left and not the right child of a red right child, with an uncle
  -- that is another node and not red, the positions of the node, its parent and its grandparent
  -- different, and the latter two not NPOS, `InsertFixup` with any fuel but none ends with the
  -- node still red and now the right child of its grandparent, which is red too.
  pub insert_fixup-two_reds :
      (fuel new parent grand : ℕ) (t : TreeState A)
      → Inner t new parent grand
      → (t' : TreeState A) × (insert_fixup (suc fuel) new t ≡ some t')
        × (get_rchild t' grand ≡ new)
        × (get_color t' grand ≡ red)
        × (get_color t' new ≡ red)
  insert_fixup-two_reds fuel new parent grand t i =
      let u = set_color grand red (set_color parent black t) in
      let turned = last-rotate_left new parent grand t i in
      let right : get_rchild u grand ≡ parent =
        (links-set_color grand grand red (set_color parent black t)).1
        ∙ (links-set_color parent grand black t).1
        ∙ i.right_child in
      let left : get_lchild u parent ≡ new =
        (links-set_color grand parent red (set_color parent black t)).0
        ∙ (links-set_color parent parent black t).0
        ∙ i.left_child in
      (
        rotate_left grand u,
        insert_fixup-last fuel new parent grand t i ∙ ap some turned,
        rchild-rotate_left grand u i.grand_there ∙ ap (get_lchild u) right ∙ left,
        color-rotate_left grand grand u
            ∙ ground (arith, color-set_color grand grand red (set_color parent black t)),
        color-rotate_left grand new u
            ∙ ground (
              arith,
              i.red_new,
              i.apart,
              color-set_color grand new red (set_color parent black t),
              color-set_color parent new black t,
            ),
      )
