-- ===== src/Container/RedBlackTree/Search.antt =====
-- `RBTreeState::FindNode` on a well-formed tree.
use lsf.Prelude.{
  ℕ, zero, suc, ◌+◌, ◌-◌, ◌≤◌, ◌<◌, true, false, some, List, [], ◌∷◌, ◌++◌, mem, mem-append, arith,
  ◌≡◌, ◌≢◌, ◌⊎◌, refl, Bool-cases, inl, inr,
}
use lsf.Container.RedBlackTree.{TreeState, npos, get_lchild, get_rchild, get_parent, get_data}
use lsf.Container.RedBlackTree.Find.{Order, find_loop, find_node}

-- The positions of a tree, as they hang together.
pub data Shape : Type 0 where
  leaf : Shape
  fork : ℕ → Shape → Shape → Shape

abbrev pub positions : Shape → List ℕ
positions leaf = []
positions (fork p l r) = positions l ++ p ∷ positions r

abbrev pub max : ℕ → ℕ → ℕ
max a b = a + (b - a)

abbrev pub height : Shape → ℕ
height leaf = 0
height (fork p l r) = suc (max (height l) (height r))

module _ {A : Type 0} where
  -- The links of the block form the tree below `pos`, whose parent link is `parent`.
  abbrev pub Linked : TreeState A → Shape → ℕ → ℕ → Type 0
  Linked t leaf pos parent = pos ≡ npos
  Linked t (fork p l r) pos parent =
      (pos ≡ p)
      × (p ≢ npos)
      × (get_parent t p ≡ parent)
      × Linked t l (get_lchild t p) p
      × Linked t r (get_rchild t p) p

  -- Below every node, nothing on the left is above its value, and all on the right is.
  abbrev pub Sorted : Order A → TreeState A → Shape → Type 0
  Sorted o t leaf = Unit {0}
  Sorted o t (fork p l r) =
      ((q : ℕ) → mem q (positions l) ≡ true → o.less (get_data t p) (get_data t q) ≡ false)
      × ((q : ℕ) → mem q (positions r) ≡ true → o.less (get_data t p) (get_data t q) ≡ true)
      × Sorted o t l
      × Sorted o t r

  -- Values that are the same compare alike.
  abbrev pub Congruent : Order A → Type 0
  Congruent o = (p x v : A) → o.same x v ≡ true → o.less p x ≡ o.less p v

  -- No node below has the value, or `found` is a node that has it.
  abbrev pub Answer : Order A → TreeState A → A → Shape → ℕ → Type 0
  Answer o t v s found =
      ((found ≡ npos) × ((q : ℕ) → mem q (positions s) ≡ true → o.same (get_data t q) v ≡ false))
      ⊎ ((found ≢ npos) × (mem found (positions s) ≡ true) × (o.same (get_data t found) v ≡ true))

  Answer-right :
      (o : Order A) (t : TreeState A) (v : A) (p : ℕ) (l r : Shape) (found : ℕ)
      → Congruent o
      → Sorted o t (fork p l r)
      → o.same (get_data t p) v ≡ false
      → o.less (get_data t p) v ≡ true
      → Answer o t v r found
      → Answer o t v (fork p l r) found
  Answer-right o t v p l r found c s here less (inr (n, m, e)) =
      inr (n, ground (arith, mem-append found (positions l) (p ∷ positions r), m), e)
  Answer-right o t v p l r found c s here less (inl (n, out)) = inl (
    n,
    λ q m. elim (Bool-cases (o.same (get_data t q) v)) [
      | inr other ↦ other
      | inl eqv ↦ ground (
        arith,
        mem-append q (positions l) (p ∷ positions r),
        m,
        out q,
        s.0 q,
        c (get_data t p) (get_data t q) v eqv,
        here,
        less,
        eqv,
      )
    ],
  )

  Answer-left :
      (o : Order A) (t : TreeState A) (v : A) (p : ℕ) (l r : Shape) (found : ℕ)
      → Congruent o
      → Sorted o t (fork p l r)
      → o.same (get_data t p) v ≡ false
      → o.less (get_data t p) v ≡ false
      → Answer o t v l found
      → Answer o t v (fork p l r) found
  Answer-left o t v p l r found c s here less (inr (n, m, e)) =
      inr (n, ground (arith, mem-append found (positions l) (p ∷ positions r), m), e)
  Answer-left o t v p l r found c s here less (inl (n, out)) = inl (
    n,
    λ q m. elim (Bool-cases (o.same (get_data t q) v)) [
      | inr other ↦ other
      | inl eqv ↦ ground (
        arith,
        mem-append q (positions l) (p ∷ positions r),
        m,
        out q,
        s.1 q,
        c (get_data t p) (get_data t q) v eqv,
        here,
        less,
        eqv,
      )
    ],
  )

  find_loop-Answer :
      (o : Order A) (t : TreeState A) (v : A) (s : Shape) (fuel pos parent : ℕ)
      → Congruent o
      → Linked t s pos parent
      → Sorted o t s
      → height s < fuel
      → (found : ℕ) × (last : ℕ) × (find_loop o fuel t v pos parent ≡ some (found, last))
        × Answer o t v s found
  unfolding find_loop
  find_loop-Answer o t v s zero pos parent c k sorted h = absurd (omega arith)
  find_loop-Answer o t v leaf (suc fuel) pos parent c k sorted h =
      (pos, parent, rw k refl, inl (k, λ q m. ground (arith, m)))
  find_loop-Answer o t v (fork p l r) (suc fuel) pos parent c k sorted h =
      let (f1, l1, e1, a1) =
        find_loop-Answer o t v l fuel (get_lchild t p) p c k.3 sorted.2 (ground (arith, h)) in
      let (f2, l2, e2, a2) =
        find_loop-Answer o t v r fuel (get_rchild t p) p c k.4 sorted.3 (ground (arith, h)) in
      let root : (get_lchild t pos ≡ get_lchild t p)
          × (get_rchild t pos ≡ get_rchild t p)
          × (get_data t pos ≡ get_data t p) =
        ground (arith, k.0) in
      elim (Bool-cases (o.same (get_data t p) v)) [
        | inl here ↦ (
          p,
          parent,
          ground (arith, k.0, k.1, here),
          inr (k.1, ground (arith, mem-append p (positions l) (p ∷ positions r)), here),
        )
        | inr away ↦ elim (Bool-cases (o.less (get_data t p) v)) [
          | inl below ↦ (
            f2,
            l2,
            ground (arith, k.0, k.1, away, below, e2),
            Answer-right o t v p l r f2 c sorted away below a2,
          )
          | inr above ↦ (
            f1,
            l1,
            ground (arith, k.0, k.1, away, above, e1),
            Answer-left o t v p l r f1 c sorted away above a1,
          )
        ]
      ]

  -- On a linked and sorted tree that is no higher than the block is large, and for an order in
  -- which values that are the same compare alike, `FindNode` ends; it gives NPOS when no node of
  -- the tree has the value, and otherwise a node of the tree that has it.
  pub find_node-Answer :
      (o : Order A) (t : TreeState A) (v : A) (s : Shape)
      → Congruent o
      → Linked t s t.root_pos npos
      → Sorted o t s
      → height s ≤ t.max_size
      → (found : ℕ) × (last : ℕ) × (find_node o t v ≡ some (found, last)) × Answer o t v s found
  unfolding find_node
  find_node-Answer o t v s c k sorted h =
      find_loop-Answer o t v s (t.max_size + 1) t.root_pos npos c k sorted (omega arith)
