-- ===== src/Container/LinkedList/Holds.antt =====
-- `List` as a sequence: what each update does to the elements in order.
use lsf.Prelude.{
  ℕ, suc, ◌+◌, ◌<◌, ◌≡◌, refl, sym, ◌∙◌, ap, ap₂, subst, Bool, true, false, List, [], ◌∷◌, ◌++◌,
  map, map-append, arith, ◌==◌, mem, if◌then◌else◌, length, mem-append, Distinct-delete,
}
use lsf.Container.Ring.{Chain, first}
use lsf.Container.ListState.{
  ListState, prev, datum, set_data, get_new_node_and_insert, free_node, full, empty,
}
use lsf.Container.ListState.Wf.{Wf, contents, set_data-Wf, datum-set_data}
use lsf.Container.ListState.Insert.{insert-Wf, insert-datum}
use lsf.Container.ListState.Free.{free-Wf, free-datum}
use lsf.Container.LinkedList.{put, end}

-- The values at positions that a write spares.
pub map_same :
    {A : Type 0} (f g : ℕ → A) (xs : List ℕ)
    → ((x : ℕ) → mem x xs ≡ true → f x ≡ g x)
    → map f xs ≡ map g xs
map_same f g [] h = refl
map_same f g (x ∷ xs) h = ground (arith, h x, map_same f g xs (λ y hy. h y (ground arith)))

first_prev : (n p : ℕ → ℕ) (us : List ℕ) → Chain n p 0 us 0 → p (first us 0) ≡ 0
first_prev n p [] c = c.1
first_prev n p (x ∷ us) c = c.1

module _ {A : Type 0} where
  -- The list state holds the elements `xs` in order, and has room for `n`.
  pub record Holds (s : ListState A) (n : ℕ) (xs : List A) : Type 0 where
    pub used_pos : List ℕ
    pub unused_pos : List ℕ
    pub wf : Wf s used_pos unused_pos
    pub elements : contents s used_pos ≡ xs
    pub room : s.max_size ≡ suc n

  module _ (s : ListState A) (us fs : List ℕ) (wf : Wf s us fs) where
    pub full-eq : full s ≡ (length us == length us + length fs)
    unfolding full
    full-eq = ground (arith, wf.size, wf.total, wf.word)

    pub empty-eq : empty s ≡ (length us == 0)
    unfolding empty
    empty-eq = rw wf.size

    -- The node before the head is the end node.
    pub before_head : prev s.nodes s.head_pos ≡ 0
    before_head = rw wf.head (first_prev _ _ us wf.rings.used_ring)

    pub end-eq : end s ≡ 0
    unfolding end
    end-eq = before_head

  module _ (s : ListState A) (vs ws : List ℕ) (x : ℕ) (fs : List ℕ) (v : A)
      (wf : Wf s (vs ++ ws) (x ∷ fs)) where
    abbrev pub added : ListState A
    added = (get_new_node_and_insert s (first ws 0)).1

    put-eq : (put s (first ws 0) v).1 ≡ record added { nodes = set_data x v added.nodes }
    put-eq =
        ap (λ p. record added { nodes = set_data p v added.nodes }) (insert-Wf s vs ws x fs wf).0

    put-datum :
        (y : ℕ) → mem y (vs ++ ws) ≡ true → datum (set_data x v added.nodes) y ≡ datum s.nodes y
    put-datum y h = ground (
      arith,
      datum-set_data added x v y,
      insert-datum s vs ws x fs wf y,
      (Distinct-delete x (0 ∷ vs ++ ws) fs wf.rings.distinct).1,
      mem-append x (vs ++ ws) fs,
    )

    pub datum-put :
        (y : ℕ) → datum (put s (first ws 0) v).1.nodes y ≡ (if y == x then v else datum s.nodes y)
    datum-put y =
        ap (λ t. datum t.nodes y) put-eq
        ∙ ground (arith, datum-set_data added x v y, insert-datum s vs ws x fs wf y)

    pub put-Wf : Wf (put s (first ws 0) v).1 (vs ++ x ∷ ws) fs
    put-Wf =
        subst (λ t. Wf t (vs ++ x ∷ ws) fs) (sym put-eq)
          (set_data-Wf added x v (vs ++ x ∷ ws) fs (insert-Wf s vs ws x fs wf).1)

    pub contents-put :
        contents (put s (first ws 0) v).1 (vs ++ x ∷ ws) ≡ contents s vs ++ v ∷ contents s ws
    contents-put =
        subst (λ t. contents t (vs ++ x ∷ ws) ≡ contents s vs ++ v ∷ contents s ws) (sym put-eq)
          (map-append (datum (set_data x v added.nodes)) vs (x ∷ ws)
            ∙ ap₂ (λ a b. a ++ b)
                (map_same _ _ vs (λ y h. put-datum y (ground (arith, mem-append y vs ws))))
                (ap₂ (λ a b. a ∷ b) (ground (arith, datum-set_data added x v x))
                  (map_same _ _ ws (λ y h. put-datum y (ground (arith, mem-append y vs ws))))))

  -- The node at a used position is freed.
  module _ (s : ListState A) (n : ℕ) (vs : List ℕ) (pos : ℕ) (ws fs : List ℕ)
      (wf : Wf s (vs ++ pos ∷ ws) fs) (room : s.max_size ≡ suc n) where
    pub freed-Holds : Holds (free_node s pos) n (contents s vs ++ contents s ws)
    unfolding free_node
    freed-Holds = record {
      used_pos = vs ++ ws;
      unused_pos = fs ++ pos ∷ [];
      wf = free-Wf s vs pos ws fs wf;
      elements =
          map_same _ _ (vs ++ ws) (λ y h. free-datum s vs pos ws fs wf y)
          ∙ map-append (datum s.nodes) vs ws;
      room = room;
    }

  module _ (s : ListState A) (n : ℕ) (vs ws : List ℕ) (x : ℕ) (fs : List ℕ) (v : A)
      (wf : Wf s (vs ++ ws) (x ∷ fs)) (room : s.max_size ≡ suc n) where
    pub put-Holds : Holds (put s (first ws 0) v).1 n (contents s vs ++ v ∷ contents s ws)
    unfolding get_new_node_and_insert
    put-Holds = record {
      used_pos = vs ++ x ∷ ws;
      unused_pos = fs;
      wf = put-Wf s vs ws x fs v wf;
      elements = contents-put s vs ws x fs v wf;
      room = room;
    }

  -- What adding an element before the position `q` comes to: it is refused exactly on a full list.
  abbrev pub Adds : ListState A → ℕ → List A → Bool × ListState A → List A → Type 0
  Adds s n xs r ys =
      (length xs < n → (r.0 ≡ true) × Holds r.1 n ys) × (length xs ≡ n → r ≡ (false, s))

  abbrev pub Removes : ListState A → ℕ → List A → Bool × ListState A → List A → Type 0
  Removes s n xs r ys =
      (0 < length xs → (r.0 ≡ true) × Holds r.1 n ys) × (length xs ≡ 0 → r ≡ (false, s))
