-- ===== src/Container/ListState/Wf.antt =====
-- The invariant of the list state: two rings, with the node at 0 as the end of the first.
use lsf.Prelude.{
  ℕ, ◌+◌, ◌<◌, ◌^◌, ◌≡◌, ◌≢◌, refl, sym, ◌∙◌, true, false, List, [], ◌∷◌, ◌++◌, arith, ◌==◌, mem,
  Distinct, Distinct-append_left, Distinct-append_right, Distinct-apart, Distinct-insert,
  Distinct-delete, if◌then◌else◌, mem_of_eq, mem-append, append_assoc, append-nil, length, map,
  subst, ap, Bool-cases,
}
use lsf.Container.Ring.{
  Chain, last, first, Chain-last, Chain-first, Chain-append, Chain-split, Chain-frame, mem-last,
  Chain-bypass, Chain-insert, Chain-prefix, mem-first, mem-first_of_append, first-ne,
  Chain-insert_frame, Chain-remove, Chain-remove_frame,
}
use lsf.Container.ListState.{
  Nodes, ListState, next, prev, used, datum, endpos, set_data, take_empty, link_before, unlink,
  give_empty,
}
use lsf.Container.ListState.Links.{
  Links, take_empty-single, give_empty-first, next-link_before, prev-link_before, next-unlink,
  prev-unlink, next-take_empty, prev-take_empty, head-take_empty, next-give_empty, prev-give_empty,
  head-give_empty,
}

-- The parts of the distinctness that the lemmas use.
pub Distinct-used : (us fs : List ℕ) → Distinct (0 ∷ us ++ fs) → Distinct (0 ∷ us)
Distinct-used us fs d = Distinct-append_left (0 ∷ us) fs d

pub apart :
    (x : ℕ) (us fs : List ℕ) → Distinct (0 ∷ us ++ fs) → mem x fs ≡ true → mem x (0 ∷ us) ≡ false
apart x us fs d h = ground (arith, Bool-cases (mem x (0 ∷ us)), Distinct-apart x (0 ∷ us) fs d)

module _ {A : Type 0} where
  -- From the head `e` the unused nodes form a ring; 0 stands for none.
  abbrev pub FreeRing : Nodes A → ℕ → List ℕ → Type 0
  FreeRing h e [] = e ≡ 0
  FreeRing h e (x ∷ xs) = (e ≡ x) × Links h x xs x

  -- The used nodes `us` in order, and the unused nodes `fs`.
  pub record Rings (h : Nodes A) (e : ℕ) (us fs : List ℕ) : Type 0 where
    pub used_ring : Links h 0 us 0
    pub free_ring : FreeRing h e fs
    pub distinct : Distinct (0 ∷ us ++ fs)

  pub record Wf (s : ListState A) (us fs : List ℕ) : Type 0 where
    pub rings : Rings s.nodes s.empty_head_pos us fs
    pub head : s.head_pos ≡ first us 0
    pub flags : (x : ℕ) → x < s.max_size → used s.nodes x ≡ mem x us
    pub bounds : (x : ℕ) → mem x (us ++ fs) ≡ true → x < s.max_size
    pub size : s.size ≡ length us
    pub total : length us + length fs + 1 ≡ s.max_size
    pub word : s.max_size < 2 ^ 64

  -- What the list holds, in order.
  abbrev pub contents : ListState A → List ℕ → List A
  contents s us = map (datum s.nodes) us

  pub FreeRing-frame :
      (h g : Nodes A) (e : ℕ) (fs : List ℕ)
      → FreeRing h e fs
      → ((x : ℕ) → mem x fs ≡ true → next g x ≡ next h x)
      → ((x : ℕ) → mem x fs ≡ true → prev g x ≡ prev h x)
      → FreeRing g e fs
  FreeRing-frame h g e [] r hn hp = r
  FreeRing-frame h g e (x ∷ fs) r hn hp = (r.0, Chain-frame _ _ _ _ x fs x r.1 hn hp)

  module _ (h : Nodes A) where
    take_empty-ring :
        (x f : ℕ) (us fs : List ℕ)
        → Rings h x us (x ∷ f ∷ fs)
        → Rings (take_empty x h).1 (take_empty x h).0 us (f ∷ fs)
    take_empty-ring x f us fs r = record {
      used_ring =
          Chain-remove_frame _ _ _ _ x hn hp 0 us 0 r.used_ring
            (mem_of_eq (prev h x) (last f fs) (0 ∷ us) false (Chain-last _ _ x (f ∷ fs) x ring)
              (apart (last f fs) us (x ∷ f ∷ fs) r.distinct (ground (arith, mem-last f fs))))
            (mem_of_eq (next h x) f (0 ∷ us) false ring.0
              (apart f us (x ∷ f ∷ fs) r.distinct (ground arith)));
      free_ring = (
        head-take_empty h x ne ∙ ring.0,
        subst (Chain _ _ f fs) ring.0 (
            Chain-bypass _ _ _ _ x hn hp f fs ring.2 fd.1
              (mem_of_eq (next h x) f fs false ring.0 fd.1.0)),
      );
      distinct = (Distinct-delete x (0 ∷ us) (f ∷ fs) r.distinct).0;
    }
      where
        ring : Links h x (f ∷ fs) x
        ring = r.free_ring.1

        fd : Distinct (x ∷ f ∷ fs)
        fd = Distinct-append_right (0 ∷ us) (x ∷ f ∷ fs) r.distinct

        ne : next h x ≢ x
        ne e = ground (arith, ring.0, fd.0)

        hn : (y : ℕ) → next (take_empty x h).1 y ≡ (if y == prev h x then next h x else next h y)
        hn = next-take_empty h x ne

        hp : (y : ℕ) → prev (take_empty x h).1 y ≡ (if y == next h x then prev h x else prev h y)
        hp = prev-take_empty h x ne

    -- Taking the head off the ring of unused nodes leaves two rings.
    pub take_empty-Rings :
        (e x : ℕ) (us fs : List ℕ)
        → Rings h e us (x ∷ fs)
        → Rings (take_empty e h).1 (take_empty e h).0 us fs
    take_empty-Rings e x us [] r =
        rw (r.free_ring.0, take_empty-single h x r.free_ring.1.0)
          (record {
            used_ring = r.used_ring;
            free_ring = refl;
            distinct = (Distinct-delete x (0 ∷ us) [] r.distinct).0;
          })
    take_empty-Rings e x us (f ∷ fs) r = rw r.free_ring.0 (
        take_empty-ring x f us fs (record {
          used_ring = r.used_ring;
          free_ring = (refl, r.free_ring.1);
          distinct = r.distinct;
        }))

    link_used :
        (pos : ℕ) (vs ws : List ℕ)
        → Links h 0 (vs ++ ws) 0
        → Distinct (0 ∷ vs ++ ws)
        → mem pos (0 ∷ vs ++ ws) ≡ false
        → pos ≢ first ws 0
        → Links (link_before pos (first ws 0) h) 0 (vs ++ pos ∷ ws) 0
    link_used pos vs [] c d new ne =
        Chain-insert _ _ _ _ pos 0 ne (next-link_before h pos 0 ne) (prev-link_before h pos 0 ne) 0
          vs (Chain-prefix _ _ 0 vs [] 0 c) (Distinct-append_left (0 ∷ vs) [] d)
          (ground (arith, mem-append pos vs [])) (ground (arith, mem-append 0 vs []))
    link_used pos vs (w ∷ ws) c d new ne =
        let hn = next-link_before h pos w ne in
        let hp = prev-link_before h pos w ne in
        let (front, back) = Chain-split _ _ 0 vs w ws 0 c in
        let far = Distinct-apart (last 0 vs) (0 ∷ vs) (w ∷ ws) d (mem-last 0 vs) in
        let split = mem-append pos vs (w ∷ ws) in
        subst (λ l. Links (link_before pos w h) 0 l 0) (append_assoc vs (pos ∷ []) (w ∷ ws))
          (Chain-append _ _ 0 (vs ++ pos ∷ []) w ws 0
            (Chain-insert _ _ _ _ pos w ne hn hp 0 vs front
              (Distinct-append_left (0 ∷ vs) (w ∷ ws) d) (ground arith)
              (ground (arith, Bool-cases (mem w vs), Distinct-apart w (0 ∷ vs) (w ∷ ws) d)))
            (Chain-insert_frame _ _ _ _ pos w ne hn hp w ws 0 back (ground arith)
              (mem_of_eq (prev h w) (last 0 vs) (w ∷ ws) false (Chain-last _ _ 0 vs w front) far)
              (ground arith)
              (ground
                (arith, mem-append 0 vs (w ∷ ws), Distinct-append_right (0 ∷ vs) (w ∷ ws) d))))

    -- A node outside both rings is linked into the first.
    pub link_before-Rings :
        (e pos : ℕ) (vs ws fs : List ℕ)
        → Rings h e (vs ++ ws) fs
        → mem pos (0 ∷ (vs ++ ws) ++ fs) ≡ false
        → Rings (link_before pos (first ws 0) h) e (vs ++ pos ∷ ws) fs
    link_before-Rings e pos vs ws fs r new = record {
      used_ring = link_used pos vs ws r.used_ring du outside ne;
      free_ring =
          FreeRing-frame h (link_before pos q h) e fs r.free_ring
            (λ x hx. ground (
              arith,
              new,
              mem-append pos (vs ++ ws) fs,
              mem-first vs ws 0,
              before-mem,
              next-link_before h pos q ne x,
              apart x (vs ++ ws) fs r.distinct,
            ))
            (λ x hx. ground (
              arith,
              new,
              mem-append pos (vs ++ ws) fs,
              mem-first vs ws 0,
              before-mem,
              prev-link_before h pos q ne x,
              apart x (vs ++ ws) fs r.distinct,
            ));
      distinct = subst Distinct (ap (◌∷◌ 0) (sym (append_assoc vs (pos ∷ ws) fs))) (
          Distinct-insert pos (0 ∷ vs) (ws ++ fs)
            (subst Distinct (ap (◌∷◌ 0) (append_assoc vs ws fs)) r.distinct)
            (subst (λ l. mem pos (0 ∷ l) ≡ false) (append_assoc vs ws fs) new));
    }
      where
        q : ℕ
        q = first ws 0

        du : Distinct (0 ∷ vs ++ ws)
        du = Distinct-used (vs ++ ws) fs r.distinct

        outside : mem pos (0 ∷ vs ++ ws) ≡ false
        outside = ground (arith, mem-append pos (vs ++ ws) fs)

        ne : pos ≢ q
        ne e = ground (arith, mem-first vs ws 0, outside)

        before : prev h q ≡ last 0 vs
        before = Chain-last _ _ 0 vs q (Chain-prefix _ _ 0 vs ws 0 r.used_ring)

        before-mem : mem (prev h q) (0 ∷ vs ++ ws) ≡ true
        before-mem =
            mem_of_eq (prev h q) (last 0 vs) (0 ∷ vs ++ ws) true before
              (ground (arith, mem-last 0 vs, mem-append (last 0 vs) vs ws))

    -- What follows a used node is another node, and its link is to the next one.
    pub next-used :
        (e pos : ℕ) (vs ws fs : List ℕ) → Rings h e (vs ++ pos ∷ ws) fs → next h pos ≡ first ws 0
    next-used e pos vs ws fs r =
        Chain-first _ _ pos ws 0 (Chain-split _ _ 0 vs pos ws 0 r.used_ring).1

    pub next-ne : (e pos : ℕ) (vs ws fs : List ℕ) → Rings h e (vs ++ pos ∷ ws) fs → next h pos ≢ pos
    next-ne e pos vs ws fs r same =
        let d = Distinct-used (vs ++ pos ∷ ws) fs r.distinct in
        ground (
          arith,
          next-used e pos vs ws fs r,
          first-ne pos ws (Distinct-append_right (0 ∷ vs) (pos ∷ ws) d),
          mem-append pos vs (pos ∷ ws),
          mem-append 0 vs (pos ∷ ws),
          d,
        )

    -- A node of the first ring is taken out of it.
    pub unlink-Rings :
        (e pos : ℕ) (vs ws fs : List ℕ)
        → Rings h e (vs ++ pos ∷ ws) fs
        → Rings (unlink pos h) e (vs ++ ws) fs
    unlink-Rings e pos vs ws fs r = record {
      used_ring =
          Chain-remove _ _ _ _ pos hn hp 0 vs ws 0 front back
            (Distinct-used (vs ++ pos ∷ ws) fs r.distinct)
            (ground (arith, mem-append 0 (vs ++ pos ∷ ws) fs));
      free_ring =
          FreeRing-frame h (unlink pos h) e fs r.free_ring
            (λ x hx. ground (
              arith,
              apart x (vs ++ pos ∷ ws) fs r.distinct,
              hn x,
              tail,
              mem-last 0 vs,
              mem-append (last 0 vs) vs (pos ∷ ws),
            ))
            (λ x hx. ground (arith, apart x (vs ++ pos ∷ ws) fs r.distinct, hp x, lead, after));
      distinct =
          subst Distinct (ap (◌∷◌ 0) (sym (append_assoc vs ws fs)))
            (Distinct-delete pos (0 ∷ vs) (ws ++ fs) d).0;
    }
      where
        d : Distinct (0 ∷ vs ++ pos ∷ (ws ++ fs))
        d = subst Distinct (ap (◌∷◌ 0) (append_assoc vs (pos ∷ ws) fs)) r.distinct

        parts : Links h 0 vs pos × Links h pos ws 0
        parts = Chain-split _ _ 0 vs pos ws 0 r.used_ring

        front : Links h 0 vs pos
        front = parts.0

        back : Links h pos ws 0
        back = parts.1

        tail : prev h pos ≡ last 0 vs
        tail = Chain-last _ _ 0 vs pos front

        lead : next h pos ≡ first ws 0
        lead = Chain-first _ _ pos ws 0 back

        after : mem (first ws 0) (0 ∷ vs ++ pos ∷ ws) ≡ true
        after = mem-first_of_append vs pos ws 0

        ne : next h pos ≢ pos
        ne = next-ne e pos vs ws fs r

        hn : (x : ℕ) → next (unlink pos h) x ≡ (if x == prev h pos then next h pos else next h x)
        hn = next-unlink h pos ne

        hp : (x : ℕ) → prev (unlink pos h) x ≡ (if x == next h pos then prev h pos else prev h x)
        hp = prev-unlink h pos ne

    -- A node outside both rings becomes the last unused one.
    pub give_empty-Rings :
        (e pos : ℕ) (us fs : List ℕ)
        → Rings h e us fs
        → mem pos (0 ∷ us ++ fs) ≡ false
        → Rings (give_empty pos e h).1 (give_empty pos e h).0 us (fs ++ pos ∷ [])
    give_empty-Rings e pos us [] r new = rw r.free_ring (
        let (n1, p1, n2, p2, hd) = give_empty-first h pos in
        record {
          used_ring =
              Chain-frame _ _ _ _ 0 us 0 r.used_ring
                (λ x hx. n2 x (ground (arith, mem-append pos us [])))
                (λ x hx. p2 x (ground (arith, mem-append pos us [])));
          free_ring = (hd, (n1, p1));
          distinct = Distinct-insert pos (0 ∷ us) [] r.distinct new;
        })
    give_empty-Rings e pos us (f ∷ fs) r new = rw r.free_ring.0 (record {
      used_ring =
          Chain-insert_frame _ _ _ _ pos f ne hn hp 0 us 0 r.used_ring
            (ground (arith, mem-append pos us (f ∷ fs)))
            (mem_of_eq (prev h f) (last f fs) (0 ∷ us) false tail
              (apart (last f fs) us (f ∷ fs) r.distinct (mem-last f fs)))
            (ground (arith, mem-append pos us (f ∷ fs)))
            (apart f us (f ∷ fs) r.distinct (ground arith));
      free_ring = (
        head-give_empty h pos f ne held,
        Chain-insert _ _ _ _ pos f ne hn hp f fs r.free_ring.1 fd
            (ground (arith, mem-append pos us (f ∷ fs))) fd.0,
      );
      distinct = subst Distinct (ap (◌∷◌ 0) (append_assoc us (f ∷ fs) (pos ∷ []))) (
          Distinct-insert pos (0 ∷ us ++ f ∷ fs) []
            (subst Distinct (ap (◌∷◌ 0) (sym (append-nil (us ++ f ∷ fs)))) r.distinct)
            (subst (λ l. mem pos (0 ∷ l) ≡ false) (sym (append-nil (us ++ f ∷ fs))) new));
    })
      where
        fd : Distinct (f ∷ fs)
        fd = Distinct-append_right (0 ∷ us) (f ∷ fs) r.distinct

        ne : pos ≢ f
        ne e = ground (arith, mem-append pos us (f ∷ fs), new)

        held : f ≢ endpos
        held e = ground (arith, apart f us (f ∷ fs) r.distinct)

        tail : prev h f ≡ last f fs
        tail = Chain-last _ _ f fs f r.free_ring.1

        hn :
            (x : ℕ)
            → next (give_empty pos f h).1 x
              ≡ (if x == prev h f then pos else if x == pos then f else next h x)
        hn = next-give_empty h pos f ne held

        hp :
            (x : ℕ)
            → prev (give_empty pos f h).1 x
              ≡ (if x == f then pos else if x == pos then prev h f else prev h x)
        hp = prev-give_empty h pos f ne held

module _ {A : Type 0} (s : ListState A) (pos : ℕ) (v : A) where
  abbrev written : ListState A
  written = record s { nodes = set_data pos v s.nodes }

  next-set_data : (x : ℕ) → next (set_data pos v s.nodes) x ≡ next s.nodes x
  unfolding set_data
  next-set_data x = ground arith

  prev-set_data : (x : ℕ) → prev (set_data pos v s.nodes) x ≡ prev s.nodes x
  unfolding set_data
  prev-set_data x = ground arith

  used-set_data : (x : ℕ) → used (set_data pos v s.nodes) x ≡ used s.nodes x
  unfolding set_data
  used-set_data x = ground arith

  pub datum-set_data :
      (x : ℕ) → datum (set_data pos v s.nodes) x ≡ (if x == pos then v else datum s.nodes x)
  unfolding set_data
  datum-set_data x = ground arith

  -- Writing an element changes neither links nor flags.
  pub set_data-Wf : (us fs : List ℕ) → Wf s us fs → Wf written us fs
  set_data-Wf us fs wf = record {
    rings = record {
      used_ring =
          Chain-frame _ _ _ _ 0 us 0 wf.rings.used_ring (λ x h. next-set_data x)
            (λ x h. prev-set_data x);
      free_ring =
          FreeRing-frame s.nodes (set_data pos v s.nodes) _ fs wf.rings.free_ring
            (λ x h. next-set_data x) (λ x h. prev-set_data x);
      distinct = wf.rings.distinct;
    };
    head = wf.head;
    flags = λ x h. used-set_data x ∙ wf.flags x h;
    bounds = wf.bounds;
    size = wf.size;
    total = wf.total;
    word = wf.word;
  }
