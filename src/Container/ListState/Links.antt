-- ===== src/Container/ListState/Links.antt =====
-- What the link operations of the list state do to chains of positions.
use lsf.Prelude.{ℕ, ◌≡◌, ◌≢◌, refl, true, false, List, arith, ◌==◌, if◌then◌else◌, ==_refl}
use lsf.Container.Ring.{Chain}
use lsf.Container.ListState.{
  Nodes, next, prev, used, datum, endpos, take_empty, link_before, unlink, give_empty,
}

module _ {A : Type 0} (h : Nodes A) where
  -- From `a` the links of the nodes lead through `xs` to `b`, and back.
  abbrev pub Links : ℕ → List ℕ → ℕ → Type 0
  Links = Chain (next h) (prev h)

  module _ (pos q : ℕ) (ne : pos ≢ q) where
    pub next-link_before :
        (x : ℕ)
        → next (link_before pos q h) x
          ≡ (if x == prev h q then pos else if x == pos then q else next h x)
    unfolding link_before
    next-link_before x = ground arith

    pub prev-link_before :
        (x : ℕ)
        → prev (link_before pos q h) x
          ≡ (if x == q then pos else if x == pos then prev h q else prev h x)
    unfolding link_before
    prev-link_before x = ground arith

    pub used-link_before :
        (x : ℕ) → used (link_before pos q h) x ≡ (if x == pos then true else used h x)
    unfolding link_before
    used-link_before x = ground arith

    pub datum-link_before : (x : ℕ) → datum (link_before pos q h) x ≡ datum h x
    unfolding link_before
    datum-link_before x = ground arith

  module _ (pos : ℕ) (ne : next h pos ≢ pos) where
    pub next-unlink :
        (x : ℕ) → next (unlink pos h) x ≡ (if x == prev h pos then next h pos else next h x)
    unfolding unlink
    next-unlink x = ground arith

    pub prev-unlink :
        (x : ℕ) → prev (unlink pos h) x ≡ (if x == next h pos then prev h pos else prev h x)
    unfolding unlink
    prev-unlink x = ground arith

    pub used-unlink : (x : ℕ) → used (unlink pos h) x ≡ (if x == pos then false else used h x)
    unfolding unlink
    used-unlink x = ground arith

    pub datum-unlink : (x : ℕ) → datum (unlink pos h) x ≡ datum h x
    unfolding unlink
    datum-unlink x = ground arith

  module _ (pos : ℕ) (ne : next h pos ≢ pos) where
    pub head-take_empty : (take_empty pos h).0 ≡ next h pos
    unfolding take_empty
    head-take_empty = ground arith

    pub next-take_empty :
        (x : ℕ) → next (take_empty pos h).1 x ≡ (if x == prev h pos then next h pos else next h x)
    unfolding take_empty
    next-take_empty x = ground arith

    pub prev-take_empty :
        (x : ℕ) → prev (take_empty pos h).1 x ≡ (if x == next h pos then prev h pos else prev h x)
    unfolding take_empty
    prev-take_empty x = ground arith

  module _ (pos e : ℕ) (ne : pos ≢ e) (held : e ≢ endpos) where
    pub head-give_empty : (give_empty pos e h).0 ≡ e
    unfolding give_empty
    head-give_empty = ground arith

    pub next-give_empty :
        (x : ℕ)
        → next (give_empty pos e h).1 x
          ≡ (if x == prev h e then pos else if x == pos then e else next h x)
    unfolding give_empty
    next-give_empty x = ground arith

    pub prev-give_empty :
        (x : ℕ)
        → prev (give_empty pos e h).1 x
          ≡ (if x == e then pos else if x == pos then prev h e else prev h x)
    unfolding give_empty
    prev-give_empty x = ground arith

  pub take_empty-single : (e : ℕ) → next h e ≡ e → take_empty e h ≡ (endpos, h)
  unfolding take_empty
  take_empty-single e single = rw (single, ==_refl)

  pub give_empty-first :
      (pos : ℕ)
      → (next (give_empty pos endpos h).1 pos ≡ pos)
        × (prev (give_empty pos endpos h).1 pos ≡ pos)
        × ((x : ℕ) → x ≢ pos → next (give_empty pos endpos h).1 x ≡ next h x)
        × ((x : ℕ) → x ≢ pos → prev (give_empty pos endpos h).1 x ≡ prev h x)
        × ((give_empty pos endpos h).0 ≡ pos)
  unfolding give_empty
  give_empty-first pos = (ground arith, ground arith, ground arith, ground arith, refl)

  pub used-take_empty : (e x : ℕ) → used (take_empty e h).1 x ≡ used h x
  unfolding take_empty
  used-take_empty e x = ground arith

  pub datum-take_empty : (e x : ℕ) → datum (take_empty e h).1 x ≡ datum h x
  unfolding take_empty
  datum-take_empty e x = ground arith

  pub used-give_empty :
      (pos e x : ℕ) → used (give_empty pos e h).1 x ≡ (if x == pos then false else used h x)
  unfolding give_empty
  used-give_empty pos e x = ground arith

  pub datum-give_empty : (pos e x : ℕ) → datum (give_empty pos e h).1 x ≡ datum h x
  unfolding give_empty
  datum-give_empty pos e x = ground arith
