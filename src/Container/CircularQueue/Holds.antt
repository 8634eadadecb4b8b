-- ===== src/Container/CircularQueue/Holds.antt =====
-- The queue state as a sequence, and its positions with the wrap-around written as a test.
use native.Mathlib.Nat.{mod-eq_of_lt, mod-eq-sub-mod, add-mod_right}
use lsf.Prelude.{
  ℕ, suc, ◌+◌, ◌-◌, ◌%◌, ◌^◌, ◌≤◌, ◌<◌, ◌≡◌, ◌∙◌, ap, List, arith, ◌==◌, ltb, if◌then◌else◌, length,
  get_elem?, add64-eq, add64, sub64, some,
}
use lsf.Container.CircularQueue.{
  QueueState, size, empty, full, calc_absolute_pos, head_pos_inc, head_pos_dec, tail_pos_inc,
  tail_pos_dec, iterator, prev, deref,
}

-- One turn at most.
abbrev pub wrap : ℕ → ℕ → ℕ
wrap m x = if ltb x m then x else x - m

pub mod-wrap : (m x : ℕ) → x < m + m → x % m ≡ wrap m x
mod-wrap m x h = grind (arith, mod-eq_of_lt, mod-eq-sub-mod)

-- The queue holds `xs` in order from the head on, in storage for `n + 1` elements of which one
-- stays unused.
pub record Holds {A : Type 0} (q : QueueState A) (n : ℕ) (xs : List A) : Type 0 where
  pub room : q.max_size ≡ suc n
  pub word : n < 2 ^ 62
  pub head_in : q.head_pos < q.max_size
  pub fits : length xs ≤ n
  pub tail : q.tail_pos ≡ wrap q.max_size (q.head_pos + length xs)
  pub elements :
      (i : ℕ) → i < length xs → get_elem? xs i ≡ some (q.cells (wrap q.max_size (q.head_pos + i)))

module _ {A : Type 0} (q : QueueState A) (n : ℕ) (xs : List A) (h : Holds q n xs) where
  open h use {room, word, head_in, fits, tail}

  pub size-eq : size q ≡ length xs
  unfolding size
  size-eq = ground (arith, mod-wrap q.max_size (add64 (sub64 q.tail_pos q.head_pos) q.max_size))

  pub empty-eq : empty q ≡ (length xs == 0)
  unfolding empty
  empty-eq = ground arith

  pub full-eq : full q ≡ (length xs == n)
  unfolding full
  full-eq = ground (arith, mod-wrap q.max_size (add64 q.tail_pos 1))

  pub absolute-eq :
      (x : ℕ) → x < q.max_size + q.max_size → calc_absolute_pos q x ≡ wrap q.max_size x
  unfolding calc_absolute_pos
  absolute-eq x lt =
      ap (λ y. y % q.max_size) (add64-eq x q.max_size (omega arith))
      ∙ add-mod_right x q.max_size
      ∙ mod-wrap q.max_size x lt

  pub iterator-eq : (i : ℕ) → i < q.max_size → iterator q i ≡ wrap q.max_size (q.head_pos + i)
  unfolding iterator
  iterator-eq i lt =
      ap (calc_absolute_pos q) (add64-eq q.head_pos i (omega arith))
      ∙ absolute-eq (q.head_pos + i) (omega arith)

  pub prev-eq :
      (pos : ℕ) → pos < q.max_size → prev q pos ≡ (if pos == 0 then q.max_size - 1 else pos - 1)
  unfolding prev calc_absolute_pos
  prev-eq pos lt = ground (arith, mod-wrap q.max_size (add64 (sub64 pos 1) q.max_size))

  pub head_dec-eq :
      (head_pos_dec q).head_pos ≡ (if q.head_pos == 0 then q.max_size - 1 else q.head_pos - 1)
  unfolding head_pos_dec
  head_dec-eq = ground (arith, mod-wrap q.max_size (add64 (sub64 q.head_pos 1) q.max_size))

  pub head_inc-eq : (head_pos_inc q).head_pos ≡ wrap q.max_size (q.head_pos + 1)
  unfolding head_pos_inc
  head_inc-eq = ground (arith, mod-wrap q.max_size (add64 q.head_pos 1))

  pub tail_inc-eq : (tail_pos_inc q).tail_pos ≡ wrap q.max_size (q.tail_pos + 1)
  unfolding tail_pos_inc
  tail_inc-eq = ground (arith, mod-wrap q.max_size (add64 q.tail_pos 1))

  pub tail_dec-eq :
      (tail_pos_dec q).tail_pos ≡ (if q.tail_pos == 0 then q.max_size - 1 else q.tail_pos - 1)
  unfolding tail_pos_dec
  tail_dec-eq = ground (arith, mod-wrap q.max_size (add64 (sub64 q.tail_pos 1) q.max_size))

  -- Dereferencing the iterator at an index gives the element there.
  pub deref-iterator : (i : ℕ) → i < length xs → get_elem? xs i ≡ some (deref q (iterator q i))
  unfolding deref
  deref-iterator i lt =
      h.elements i lt
      ∙ ap (λ p. some (q.cells p))
          (ground (arith, iterator-eq i, mod-wrap q.max_size (iterator q i)))
