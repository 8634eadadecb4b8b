-- ===== src/Container/ListState/Free.antt =====
-- `FreeNode`: a used node leaves the list and becomes the last unused one.
use lsf.Prelude.{
  ℕ, ◌<◌, ◌≡◌, ◌≢◌, sym, ◌∙◌, false, List, [], ◌∷◌, ◌++◌, arith, ◌==◌, mem, Distinct,
  Distinct-delete, if◌then◌else◌, mem-append, length-append, subst, ap, append_assoc,
}
use lsf.Container.Ring.{first}
use lsf.Container.ListState.{ListState, next, used, datum, unlink, free_node}
use lsf.Container.ListState.Links.{
  next-unlink, used-unlink, datum-unlink, used-give_empty, datum-give_empty,
}
use lsf.Container.ListState.Wf.{
  Wf, unlink-Rings, give_empty-Rings, next-used, next-ne, Distinct-used,
}

first_moved :
    (head pos after : ℕ) (vs ws : List ℕ)
    → head ≡ first (vs ++ pos ∷ ws) 0
    → after ≡ first ws 0
    → Distinct (0 ∷ vs ++ pos ∷ ws)
    → (if head == pos then after else head) ≡ first (vs ++ ws) 0
first_moved head pos after [] ws e a d = ground arith
first_moved head pos after (v ∷ vs) ws e a d = ground (arith, mem-append v vs (pos ∷ ws))

module _ {A : Type 0} (s : ListState A) (vs : List ℕ) (pos : ℕ) (ws fs : List ℕ)
    (wf : Wf s (vs ++ pos ∷ ws) fs) where
  whole : Distinct (0 ∷ vs ++ pos ∷ (ws ++ fs))
  whole = subst Distinct (ap (◌∷◌ 0) (append_assoc vs (pos ∷ ws) fs)) wf.rings.distinct

  pub freed_pos : mem pos (0 ∷ (vs ++ ws) ++ fs) ≡ false
  freed_pos =
      subst (λ l. mem pos (0 ∷ l) ≡ false) (sym (append_assoc vs ws fs))
        (Distinct-delete pos (0 ∷ vs) (ws ++ fs) whole).1

  ne : next s.nodes pos ≢ pos
  ne = next-ne s.nodes s.empty_head_pos pos vs ws fs wf.rings

  after : next (unlink pos s.nodes) pos ≡ first ws 0
  after = ground (
    arith,
    next-unlink s.nodes pos ne pos,
    next-used s.nodes s.empty_head_pos pos vs ws fs wf.rings,
  )

  free-flags : (y : ℕ) → y < s.max_size → used (free_node s pos).nodes y ≡ mem y (vs ++ ws)
  unfolding free_node
  free-flags y h = ground (
    arith,
    used-give_empty (unlink pos s.nodes) pos s.empty_head_pos y,
    used-unlink s.nodes pos ne y,
    wf.flags y,
    freed_pos,
    mem-append pos (vs ++ ws) fs,
    mem-append y vs ws,
    mem-append y vs (pos ∷ ws),
  )

  -- No element moves.
  pub free-datum : (y : ℕ) → datum (free_node s pos).nodes y ≡ datum s.nodes y
  unfolding free_node
  free-datum y =
      datum-give_empty (unlink pos s.nodes) pos s.empty_head_pos y ∙ datum-unlink s.nodes pos ne y

  -- On a well-formed list state, `FreeNode` of any used position leaves a well-formed state in
  -- which the position is out of the used ring and last in the unused one.
  pub free-Wf : Wf (free_node s pos) (vs ++ ws) (fs ++ pos ∷ [])
  unfolding free_node
  free-Wf = record {
    rings =
        give_empty-Rings (unlink pos s.nodes) s.empty_head_pos pos (vs ++ ws) fs
          (unlink-Rings s.nodes s.empty_head_pos pos vs ws fs wf.rings) freed_pos;
    head =
        first_moved s.head_pos pos _ vs ws wf.head after
          (Distinct-used (vs ++ pos ∷ ws) fs wf.rings.distinct);
    flags = free-flags;
    bounds = λ y h. ground (
      arith,
      wf.bounds y,
      mem-append y (vs ++ ws) (fs ++ pos ∷ []),
      mem-append y fs (pos ∷ []),
      mem-append y vs ws,
      mem-append y vs (pos ∷ ws),
      mem-append y (vs ++ pos ∷ ws) fs,
    );
    size =
        omega (arith, wf.size, wf.total, wf.word, length-append vs (pos ∷ ws), length-append vs ws);
    total = omega (
      arith,
      wf.total,
      length-append vs (pos ∷ ws),
      length-append vs ws,
      length-append fs (pos ∷ []),
    );
    word = wf.word;
  }
