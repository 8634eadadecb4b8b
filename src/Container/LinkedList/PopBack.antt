-- ===== src/Container/LinkedList/PopBack.antt =====
-- `PopBack` of dev/lsf/container/list.hpp, and what it does to the rings of nodes.
use lsf.Prelude.{
  ℕ, ◌+◌, ◌<◌, ◌≡◌, ◌≢◌, refl, sym, ◌∙◌, ap, subst, true, false, List, [], ◌∷◌, ◌++◌, arith, mem,
  length, length-append, mem-append, some, Distinct, Distinct-append_left, Distinct-delete,
}
use lsf.Container.Ring.{
  first, last, Chain-first, Chain-last, Chain-split, Chain-frame, Chain-remove, mem-last,
}
use lsf.Container.ListState.{
  ListState, Nodes, next, prev, datum, free_node, empty, get_data_ptr, unlink, give_empty,
}
use lsf.Container.ListState.Links.{
  Links, used-unlink, datum-unlink, used-give_empty, datum-give_empty, next-unlink, prev-unlink,
  next-give_empty, prev-give_empty, give_empty-first,
}
use lsf.Container.ListState.Wf.{Wf, FreeRing, FreeRing-frame, apart, Distinct-used}
use lsf.Container.LinkedList.{pop_back, begin, end, get_back}
use lsf.Container.LinkedList.Holds.{empty-eq, end-eq}

module _ {A : Type 0} (s : ListState A) (us fs : List ℕ) (wf : Wf s us fs) (h : 0 < length us) where
  end_links_on : next s.nodes 0 ≢ 0
  end_links_on e =
      not_empty us (ground (arith, mem-append 0 us fs, wf.rings.distinct)) h
        (sym (Chain-first _ _ 0 us 0 wf.rings.used_ring) ∙ e)
    where
      not_empty : (us : List ℕ) → mem 0 us ≡ false → 0 < length us → first us 0 ≢ 0
      not_empty [] m l e = elim l [ ]
      not_empty (x ∷ us) m l e = ground arith

  pop_back-free_end : pop_back s ≡ (true, free_node s 0)
  unfolding pop_back end
  pop_back-free_end =
      let busy : empty s ≡ false = ground (arith, empty-eq s us fs wf) in
      rw busy (ap (λ q. (true, free_node s q)) (end-eq s us fs wf))

  still_used : (x : ℕ) → mem x us ≡ true → get_data_ptr (free_node s 0) x ≡ some (datum s.nodes x)
  unfolding get_data_ptr free_node
  still_used x m = ground (
    arith,
    used-give_empty (unlink 0 s.nodes) 0 s.empty_head_pos x,
    used-unlink s.nodes 0 end_links_on x,
    datum-give_empty (unlink 0 s.nodes) 0 s.empty_head_pos x,
    datum-unlink s.nodes 0 end_links_on x,
    wf.flags x,
    wf.bounds x,
    mem-append x us fs,
    mem-append 0 us fs,
    wf.rings.distinct,
  )

  size-free_end : (free_node s 0).size + 1 ≡ s.size
  unfolding free_node
  size-free_end = omega (arith, wf.size, wf.total, wf.word)

-- A node that is given to the ring of the unused leaves the links of all others.
module _ {A : Type 0} (h : Nodes A) where
  links-give_empty :
      (pos e : ℕ) (fs : List ℕ)
      → FreeRing h e fs
      → mem pos fs ≡ false
      → mem 0 fs ≡ false
      → (y : ℕ) → mem y (pos ∷ fs) ≡ false
      → (next (give_empty pos e h).1 y ≡ next h y) × (prev (give_empty pos e h).1 y ≡ prev h y)
  links-give_empty pos e [] r new held y far =
      let (n1, p1, n2, p2, hd) = give_empty-first h pos in
      rw r (n2 y (ground arith), p2 y (ground arith))
  links-give_empty pos e (f ∷ fs) r new held y far =
      let tail = Chain-last _ _ f fs f r.1 in
      let at = mem-last f fs in
      rw r.0 (
        ground (arith, next-give_empty h pos f (ground arith) (ground arith) y, tail, at),
        ground (arith, prev-give_empty h pos f (ground arith) (ground arith) y),
      )

  -- The node itself then leads to an unused one.
  next-give_empty_self :
      (pos e : ℕ) (fs : List ℕ)
      → FreeRing h e fs
      → mem pos fs ≡ false
      → mem 0 fs ≡ false
      → mem (next (give_empty pos e h).1 pos) (pos ∷ fs) ≡ true
  next-give_empty_self pos e [] r new held =
      let (n1, p1, n2, p2, hd) = give_empty-first h pos in rw r (ground (arith, n1))
  next-give_empty_self pos e (f ∷ fs) r new held =
      rw r.0 (ground (arith, next-give_empty h pos f (ground arith) (ground arith) pos))

module _ {A : Type 0} (s : ListState A) (vs : List ℕ) (x : ℕ) (fs : List ℕ)
    (wf : Wf s (vs ++ x ∷ []) fs) where
  abbrev unlinked : Nodes A
  unlinked = unlink 0 s.nodes

  some_used : 0 < length (vs ++ x ∷ [])
  some_used = ground (arith, length-append vs (x ∷ []))

  parts : Links s.nodes 0 vs x × Links s.nodes x [] 0
  parts = Chain-split _ _ 0 vs x [] 0 wf.rings.used_ring

  links_on : next s.nodes 0 ≢ 0
  links_on = end_links_on s (vs ++ x ∷ []) fs wf some_used

  used_only : Distinct (0 ∷ vs ++ x ∷ [])
  used_only = Distinct-used (vs ++ x ∷ []) fs wf.rings.distinct

  behind : Distinct (x ∷ 0 ∷ vs)
  behind =
      let (apart_x, outside) = Distinct-delete x (0 ∷ vs) [] used_only in
      ground (arith, outside, mem-append x vs [], Distinct-append_left (0 ∷ vs) (x ∷ []) used_only)

  head_used : mem (first (vs ++ x ∷ []) 0) (vs ++ x ∷ []) ≡ true
  head_used = ground (arith, mem_head vs)
    where
      mem_head : (vs : List ℕ) → mem (first (vs ++ x ∷ []) 0) (vs ++ x ∷ []) ≡ true
      mem_head [] = ground arith
      mem_head (v ∷ vs) = ground arith

  -- Without the end node the others are a ring that starts behind the last of them.
  ring-unlink : Links (unlink 0 s.nodes) x vs x
  ring-unlink =
      Chain-remove _ _ _ _ 0 (next-unlink s.nodes 0 links_on) (prev-unlink s.nodes 0 links_on) x []
        vs x parts.1 parts.0 behind (ground (arith, behind))

  free-unlink : FreeRing unlinked s.empty_head_pos fs
  free-unlink =
      FreeRing-frame s.nodes (unlink 0 s.nodes) _ fs wf.rings.free_ring
        (λ y hy. ground (
          arith,
          next-unlink s.nodes 0 links_on y,
          parts.1,
          apart y (vs ++ x ∷ []) fs wf.rings.distinct,
          mem-append x vs (x ∷ []),
        ))
        (λ y hy. ground (
          arith,
          prev-unlink s.nodes 0 links_on y,
          apart y (vs ++ x ∷ []) fs wf.rings.distinct,
          Chain-first _ _ 0 (vs ++ x ∷ []) 0 wf.rings.used_ring,
          head_used,
        ))

  abbrev freed : Nodes A
  freed = (give_empty 0 s.empty_head_pos unlinked).1

  unused_zero : mem 0 fs ≡ false
  unused_zero = ground (arith, wf.rings.distinct, mem-append 0 (vs ++ x ∷ []) fs)

  kept :
      (y : ℕ)
      → mem y (vs ++ x ∷ []) ≡ true
      → (next freed y ≡ next unlinked y) × (prev freed y ≡ prev unlinked y)
  kept y hy =
      links-give_empty unlinked 0 s.empty_head_pos fs free-unlink unused_zero unused_zero y
        (ground (arith, apart y (vs ++ x ∷ []) fs wf.rings.distinct, used_only))

  -- `PopBack` leaves this ring.
  ring-free_end : Links freed x vs x
  ring-free_end =
      Chain-frame _ _ _ _ x vs x ring-unlink
        (λ y hy. (kept y (ground (arith, mem-append y vs (x ∷ [])))).0)
        (λ y hy. (kept y (ground (arith, mem-append y vs (x ∷ [])))).1)

  head-free_end : (free_node s 0).head_pos ≡ first vs x
  unfolding free_node
  head-free_end = ground (arith, wf.head, head_used, used_only, first-append vs)
    where
      first-append : (vs : List ℕ) → first (vs ++ x ∷ []) 0 ≡ first vs x
      first-append [] = refl
      first-append (v ∷ vs) = refl

  nodes-free_end : (free_node s 0).nodes ≡ freed
  unfolding free_node
  nodes-free_end = refl

  -- The list now ends at the node of the element that was its last.
  end-free_end : end (free_node s 0) ≡ x
  unfolding end free_node
  end-free_end = ap (prev freed) head-free_end ∙ before vs ring-free_end
    where
      before : (vs : List ℕ) → Links freed x vs x → prev freed (first vs x) ≡ x
      before [] c = c.1
      before (v ∷ vs) c = c.1

  get_back-free_end : get_back (free_node s 0) ≡ last x vs
  unfolding get_back end free_node
  get_back-free_end = ap (prev freed) end-free_end ∙ Chain-last _ _ x vs x ring-free_end

  -- The node at 0 is among the unused ones, so that no list starts behind it.
  free_end-broken : (us gs : List ℕ) → ¬ Wf (free_node s 0) us gs
  unfolding free_node
  free_end-broken us gs broken =
      let start = Chain-first _ _ 0 us 0 broken.rings.used_ring in
      let first_unused =
        subst (λ y. mem y (0 ∷ fs) ≡ true) (start ∙ sym broken.head ∙ head-free_end)
          (next-give_empty_self unlinked 0 s.empty_head_pos fs free-unlink unused_zero
            unused_zero) in
      ground (
        arith,
        first_unused,
        first_used,
        used_only,
        apart (first vs x) (vs ++ x ∷ []) fs wf.rings.distinct,
      )
    where
      first_used : mem (first vs x) (vs ++ x ∷ []) ≡ true
      first_used = mem_first vs
        where
          mem_first : (vs : List ℕ) → mem (first vs x) (vs ++ x ∷ []) ≡ true
          mem_first [] = ground arith
          mem_first (v ∷ vs) = ground arith

module _ {A : Type 0} (s : ListState A) where
  -- On a well-formed list with the last used node `x`, `PopBack` returns true and lowers the
  -- count by one; the end node is then `x`, from which the links lead through exactly the other
  -- used nodes, in order, and back to it, so that `GetBack` is the last of them, or `x` when
  -- there is none; yet all elements, the one at `x` too, are still marked as used and readable,
  -- and no lists of used and unused nodes make the state well-formed.
  pub pop_back-end :
      (vs : List ℕ) (x : ℕ) (fs : List ℕ)
      → Wf s (vs ++ x ∷ []) fs
      → ((pop_back s).0 ≡ true)
        × ((pop_back s).1.size + 1 ≡ s.size)
        × (begin (pop_back s).1 ≡ first vs x)
        × (end (pop_back s).1 ≡ x)
        × (get_back (pop_back s).1 ≡ last x vs)
        × Links (pop_back s).1.nodes x vs x
        × ((y : ℕ)
            → mem y (vs ++ x ∷ []) ≡ true
            → get_data_ptr (pop_back s).1 y ≡ some (datum s.nodes y))
        × ((us gs : List ℕ) → ¬ Wf (pop_back s).1 us gs)
  unfolding begin
  pop_back-end vs x fs wf = rw (pop_back-free_end s (vs ++ x ∷ []) fs wf (some_used s vs x fs wf)) (
    refl,
    size-free_end s (vs ++ x ∷ []) fs wf (some_used s vs x fs wf),
    head-free_end s vs x fs wf,
    end-free_end s vs x fs wf,
    get_back-free_end s vs x fs wf,
    rw (nodes-free_end s vs x fs wf) (ring-free_end s vs x fs wf),
    still_used s (vs ++ x ∷ []) fs wf (some_used s vs x fs wf),
    free_end-broken s vs x fs wf,
  )
