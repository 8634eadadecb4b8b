-- ===== src/Container/ListState/Init.antt =====
-- `Init`: an empty list, and all other nodes unused in order.
use lsf.Prelude.{
  ℕ, zero, suc, ◌+◌, ◌-◌, ◌*◌, ◌/◌, ◌%◌, ◌≤◌, ◌<◌, ◌^◌, ◌≡◌, refl, ◌∙◌, Bool, false, ◌&&◌, [],
  arith, ◌==◌, Bool-cases, if◌then◌else◌, add64, sub64, ap, ltb, leb, up_from, mem-up_from,
  Distinct-up_from, length-up_from,
}
use native.Mathlib.Nat.{mul-div_cancel}
use lsf.Container.Ring.{Chain}
use lsf.Container.ListState.{
  Nodes, Layout, next, prev, used, make_empty_list, make_end, make_lists, init, calc_byte_size,
}
use lsf.Container.ListState.Wf.{Rings, Wf}

within : ℕ → ℕ → ℕ → Bool
within pos k x = leb pos x && ltb x (pos + k)

module _ {A : Type 0} where
  -- The loop links each position of its range to its neighbours, and clears its flag.
  next-make :
      (k pos x : ℕ) (h : Nodes A)
      → next (make_empty_list k pos h) x ≡ (if within pos k x then add64 x 1 else next h x)
  unfolding make_empty_list within
  next-make zero pos x h = ground arith
  next-make (suc k) pos x h = rw (next-make k (pos + 1) x _) (ground arith)

  prev-make :
      (k pos x : ℕ) (h : Nodes A)
      → prev (make_empty_list k pos h) x ≡ (if within pos k x then sub64 x 1 else prev h x)
  unfolding make_empty_list within
  prev-make zero pos x h = ground arith
  prev-make (suc k) pos x h = rw (prev-make k (pos + 1) x _) (ground arith)

  used-make :
      (k pos x : ℕ) (h : Nodes A)
      → used (make_empty_list k pos h) x ≡ (if within pos k x then false else used h x)
  unfolding make_empty_list within
  used-make zero pos x h = ground arith
  used-make (suc k) pos x h = rw (used-make k (pos + 1) x _) (ground arith)

-- Neighbours linked in order form a chain.
Chain-up_from :
    (n p : ℕ → ℕ) (a k b : ℕ)
    → ((x : ℕ) → a ≤ x → x < a + k → n x ≡ suc x)
    → ((x : ℕ) → a < x → x < suc a + k → p x ≡ x - 1)
    → n (a + k) ≡ b
    → p b ≡ a + k
    → Chain n p a (up_from (suc a) k) b
Chain-up_from n p a zero b hn hp e1 e2 = (ground arith, ground arith)
Chain-up_from n p a (suc k) b hn hp e1 e2 = (
  hn a (omega arith) (omega arith),
  hp (suc a) (omega arith) (omega arith) ∙ omega arith,
  Chain-up_from n p (suc a) k b (λ x h1 h2. hn x (omega arith) (omega arith))
      (λ x h1 h2. hp x (omega arith) (omega arith)) (ground arith) (ground arith),
)

module _ {A : Type 0} (raw : Nodes A) (k : ℕ) (word : suc (suc k) < 2 ^ 64) where
  abbrev made : Nodes A
  made = make_lists (suc (suc k)) raw

  next-made :
      (x : ℕ)
      → next made x ≡ (
          if x == suc k
          then 1
          else if x == 0
          then 0
          else if ltb x (suc k)
          then suc x
          else next raw x)
  unfolding make_lists make_end within
  next-made x =
      ground (arith, next-make (suc k) 1 x (make_end raw), Bool-cases (within 1 (suc k) x))

  prev-made :
      (x : ℕ)
      → prev made x ≡ (
          if x == 1
          then suc k
          else if x == 0
          then 0
          else if ltb x (suc (suc k))
          then x - 1
          else prev raw x)
  unfolding make_lists make_end within
  prev-made x = ground (arith, prev-make (suc k) 1 x (make_end raw))

  used-made : (x : ℕ) → x < suc (suc k) → used made x ≡ false
  unfolding make_lists make_end within
  used-made x h = ground (arith, used-make (suc k) 1 x (make_end raw))

  made-Rings : Rings made 1 [] (up_from 1 (suc k))
  made-Rings = record {
    used_ring = (ground (arith, next-made 0), ground (arith, prev-made 0));
    free_ring = (
      refl,
      Chain-up_from _ _ 1 k 1 (λ x h1 h2. ground (arith, next-made x))
          (λ x h1 h2. ground (arith, prev-made x)) (ground (arith, next-made (1 + k)))
          (ground (arith, prev-made 1)),
    );
    distinct = ground (arith, mem-up_from 0 1 (suc k), Distinct-up_from 1 (suc k));
  }

module _ {A : Type 0} (layout : Layout) (raw : Nodes A) where
  -- The new list is empty and every other node is unused.
  pub init-Wf :
      (bytes k : ℕ)
      → sub64 bytes layout.state_bytes / layout.node_bytes ≡ suc (suc k)
      → suc (suc k) < 2 ^ 64
      → Wf (init layout raw bytes) [] (up_from 1 (suc k))
  unfolding init
  init-Wf bytes k room word = rw room (record {
    rings = made-Rings raw k word;
    head = refl;
    flags = λ x h. used-made raw k word x (omega arith);
    bounds = λ x h. ground (arith, mem-up_from x 1 (suc k));
    size = refl;
    total = omega (arith, length-up_from 1 (suc k));
    word = omega arith;
  })

-- The storage size that `CalcByteSize` asks for gives room for exactly that many elements.
pub calc-room :
    (layout : Layout) (n : ℕ)
    → 0 < layout.node_bytes
    → suc n * layout.node_bytes + layout.state_bytes < 2 ^ 64
    → sub64 (calc_byte_size layout n) layout.state_bytes / layout.node_bytes ≡ suc n
unfolding calc_byte_size
calc-room layout n pos fits =
    let c = layout.node_bytes in
    let some_bytes : suc n ≤ suc n * c = grind arith in
    let count : (n + 1) % 2 ^ 64 ≡ suc n = omega (arith, some_bytes) in
    ap (λ t. sub64 (add64 ((t * c) % 2 ^ 64) layout.state_bytes) layout.state_bytes / c) count
    ∙ ap (λ t. t / c) (omega arith)
    ∙ mul-div_cancel (suc n) pos
