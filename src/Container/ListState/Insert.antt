-- ===== src/Container/ListState/Insert.antt =====
-- `GetNewNodeAndInsert`: the first unused node goes before the given position.
use lsf.Prelude.{
  ℕ, ◌<◌, ◌≡◌, ◌≢◌, sym, ◌∙◌, false, ◌||◌, List, [], ◌∷◌, ◌++◌, arith, ◌==◌, mem, Distinct,
  Distinct-delete, if◌then◌else◌, mem-append, length-append, subst, ap,
}
use lsf.Container.Ring.{first, mem-first}
use lsf.Container.ListState.{
  ListState, used, datum, take_empty, link_before, get_new_node_and_insert,
}
use lsf.Container.ListState.Links.{
  used-link_before, datum-link_before, used-take_empty, datum-take_empty,
}
use lsf.Container.ListState.Wf.{Rings, Wf, take_empty-Rings, link_before-Rings, Distinct-used}

first_kept :
    (head x : ℕ) (vs ws : List ℕ)
    → head ≡ first (vs ++ ws) 0
    → Distinct (0 ∷ vs ++ ws)
    → (if (head == first ws 0) || (head == 0) then x else head) ≡ first (vs ++ x ∷ ws) 0
first_kept head x [] ws e d = ground arith
first_kept head x (v ∷ vs) [] e d = ground arith
first_kept head x (v ∷ vs) (w ∷ ws) e d = ground (arith, mem-append v vs (w ∷ ws))

module _ {A : Type 0} (s : ListState A) (vs ws : List ℕ) (x : ℕ) (fs : List ℕ)
    (wf : Wf s (vs ++ ws) (x ∷ fs)) where
  first_free : s.empty_head_pos ≡ x
  first_free = wf.rings.free_ring.0

  new_pos : mem x (0 ∷ (vs ++ ws) ++ fs) ≡ false
  new_pos = (Distinct-delete x (0 ∷ vs ++ ws) fs wf.rings.distinct).1

  new_ne : x ≢ first ws 0
  new_ne e = ground (arith, new_pos, mem-first vs ws 0, mem-append x (vs ++ ws) fs)

  abbrev inserted : ListState A
  inserted = (get_new_node_and_insert s (first ws 0)).1

  insert-nodes : inserted.nodes ≡ link_before x (first ws 0) (take_empty s.empty_head_pos s.nodes).1
  unfolding get_new_node_and_insert
  insert-nodes =
      ap (λ p. link_before p (first ws 0) (take_empty s.empty_head_pos s.nodes).1) first_free

  insert-Rings : Rings inserted.nodes inserted.empty_head_pos (vs ++ x ∷ ws) fs
  unfolding get_new_node_and_insert
  insert-Rings =
      subst (λ h. Rings h (take_empty s.empty_head_pos s.nodes).0 (vs ++ x ∷ ws) fs)
        (sym insert-nodes)
        (link_before-Rings _ _ x vs ws fs
          (take_empty-Rings s.nodes s.empty_head_pos x (vs ++ ws) fs wf.rings) new_pos)

  insert-flags : (y : ℕ) → y < s.max_size → used inserted.nodes y ≡ mem y (vs ++ x ∷ ws)
  insert-flags y h =
      subst (λ g. used g y ≡ mem y (vs ++ x ∷ ws)) (sym insert-nodes)
        (ground (
          arith,
          used-link_before (take_empty s.empty_head_pos s.nodes).1 x (first ws 0) new_ne y,
          used-take_empty s.nodes s.empty_head_pos y,
          wf.flags y,
          mem-append y vs ws,
          mem-append y vs (x ∷ ws),
        ))

  -- No element moves.
  pub insert-datum : (y : ℕ) → datum inserted.nodes y ≡ datum s.nodes y
  insert-datum y =
      subst (λ g. datum g y ≡ datum s.nodes y) (sym insert-nodes)
        (datum-link_before (take_empty s.empty_head_pos s.nodes).1 x (first ws 0) new_ne y
          ∙ datum-take_empty s.nodes s.empty_head_pos y)

  -- On a well-formed list state with an unused node, `GetNewNodeAndInsert` before any used
  -- position, or at the end, takes the first unused node, and the state is well formed with that
  -- node in this place of the used ring and out of the unused one.
  pub insert-Wf : ((get_new_node_and_insert s (first ws 0)).0 ≡ x) × Wf inserted (vs ++ x ∷ ws) fs
  unfolding get_new_node_and_insert
  insert-Wf = (
    first_free,
    record {
      rings = insert-Rings;
      head = rw first_free (
          first_kept s.head_pos x vs ws wf.head
            (Distinct-used (vs ++ ws) (x ∷ fs) wf.rings.distinct));
      flags = insert-flags;
      bounds = λ y h. ground (
        arith,
        wf.bounds y,
        mem-append y vs (x ∷ ws),
        mem-append y (vs ++ x ∷ ws) fs,
        mem-append y vs ws,
        mem-append y (vs ++ ws) (x ∷ fs),
      );
      size =
          omega (arith, wf.size, wf.total, wf.word, length-append vs (x ∷ ws), length-append vs ws);
      total = omega (arith, wf.total, length-append vs (x ∷ ws), length-append vs ws);
      word = wf.word;
    },
  )
