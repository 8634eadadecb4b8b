-- ===== src/Container/CircularQueue.antt =====
-- `QueueState` and `QueueIterator` of dev/lsf/container/detail/impl_circular_queue.hpp, and `Queue`
-- of dev/lsf/container/queue.hpp. The storage is a function from positions to elements; positions
-- are `size_t` of 64 bits. `_size`, which the source sets to 0 and never reads, is kept.
pub mod Holds
pub mod Ends
use lsf.Prelude.{
  ℕ, ◌+◌, ◌-◌, ◌*◌, ◌/◌, ◌%◌, ◌^◌, Bool, true, false, ◌==◌, ltb, if◌then◌else◌, update, add64,
  sub64,
}

pub record QueueState (A : Type 0) : Type 0 where
  pub size_field : ℕ
  pub max_size : ℕ
  pub elem_byte_size : ℕ
  pub head_pos : ℕ
  pub tail_pos : ℕ
  pub cells : ℕ → A

unfoldable pub calc_byte_size : ℕ → ℕ → ℕ → ℕ
calc_byte_size state_bytes elem_bytes size =
    add64 (((size + 1) % 2 ^ 64 * elem_bytes) % 2 ^ 64) state_bytes

module _ {A : Type 0} where
  -- `raw` is what the storage holds before.
  unfoldable pub init : ℕ → ℕ → (ℕ → A) → ℕ → QueueState A
  init state_bytes elem_bytes raw byte_size = record {
    size_field = 0;
    max_size = sub64 byte_size state_bytes / elem_bytes;
    elem_byte_size = elem_bytes;
    head_pos = 0;
    tail_pos = 0;
    cells = raw;
  }

  unfoldable pub size : QueueState A → ℕ
  size q = add64 (sub64 q.tail_pos q.head_pos) q.max_size % q.max_size

  unfoldable pub capacity : QueueState A → ℕ
  capacity q = sub64 q.max_size 1

  unfoldable pub empty : QueueState A → Bool
  empty q = q.head_pos == q.tail_pos

  unfoldable pub full : QueueState A → Bool
  full q = q.head_pos == add64 q.tail_pos 1 % q.max_size

  unfoldable pub calc_absolute_pos : QueueState A → ℕ → ℕ
  calc_absolute_pos q pos = add64 pos q.max_size % q.max_size

  unfoldable pub head_pos_inc : QueueState A → QueueState A
  head_pos_inc q = record q { head_pos = add64 q.head_pos 1 % q.max_size }

  unfoldable pub head_pos_dec : QueueState A → QueueState A
  head_pos_dec q = record q { head_pos = add64 (sub64 q.head_pos 1) q.max_size % q.max_size }

  unfoldable pub tail_pos_inc : QueueState A → QueueState A
  tail_pos_inc q = record q { tail_pos = add64 q.tail_pos 1 % q.max_size }

  unfoldable pub tail_pos_dec : QueueState A → QueueState A
  tail_pos_dec q = record q { tail_pos = add64 (sub64 q.tail_pos 1) q.max_size % q.max_size }

  -- An iterator is its absolute position. The constructor takes an index from the head.
  unfoldable pub iterator : QueueState A → ℕ → ℕ
  iterator q idx = calc_absolute_pos q (add64 q.head_pos idx)

  unfoldable pub next : QueueState A → ℕ → ℕ
  next q pos = calc_absolute_pos q (add64 pos 1)

  unfoldable pub prev : QueueState A → ℕ → ℕ
  prev q pos = calc_absolute_pos q (sub64 pos 1)

  -- `*iter`, read and written.
  unfoldable pub deref : QueueState A → ℕ → A
  deref q pos = q.cells (pos % q.max_size)

  unfoldable pub store : QueueState A → ℕ → A → QueueState A
  store q pos v = record q { cells = update q.cells (pos % q.max_size) v }

  unfoldable pub begin : QueueState A → ℕ
  begin q = iterator q 0

  unfoldable pub end : QueueState A → ℕ
  end q = iterator q (size q)

  unfoldable pub get_front : QueueState A → ℕ
  get_front q = iterator q 0

  -- `std::max((int)size() - 1, 0)`: from 2^31 on the `int` is negative.
  unfoldable pub get_back : QueueState A → ℕ
  get_back q = let n = size q % 2 ^ 32 in iterator q (if ltb n (2 ^ 31) then n - 1 else 0)

  unfoldable pub push_front : QueueState A → A → Bool × QueueState A
  push_front q v =
      if full q then (false, q) else (true, head_pos_dec (store q (prev q (begin q)) v))

  unfoldable pub push_back : QueueState A → A → Bool × QueueState A
  push_back q v = if full q then (false, q) else (true, tail_pos_inc (store q (end q) v))

  -- The destructor of the element does not change the state.
  unfoldable pub pop_front : QueueState A → Bool × QueueState A
  pop_front q = if empty q then (false, q) else (true, head_pos_inc q)

  unfoldable pub pop_back : QueueState A → Bool × QueueState A
  pop_back q = if empty q then (false, q) else (true, tail_pos_dec q)
