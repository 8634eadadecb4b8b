-- ===== src/Container/CircularQueue/Ends.antt =====
-- The updates of `Queue` on the sequence of its elements, and its two end iterators.
use native.Mathlib.Nat.{mod-eq_of_lt, mul-div_cancel}
use lsf.Prelude.{
  ℕ, zero, suc, ◌+◌, ◌-◌, ◌*◌, ◌/◌, ◌%◌, ◌^◌, ◌≤◌, ◌<◌, ◌≡◌, refl, ◌∙◌, ap, true, false, List, [],
  ◌∷◌, ◌++◌, arith, ◌==◌, ltb, if◌then◌else◌, length, length-append, get_elem?,
  get_elem?-append_last, add64, sub64, some,
}
use lsf.Container.CircularQueue.{
  QueueState, size, empty, full, head_pos_inc, head_pos_dec, tail_pos_inc, tail_pos_dec, store,
  deref, prev, begin, end, get_front, get_back, push_back, push_front, pop_back, pop_front, init,
  calc_byte_size,
}
use lsf.Container.CircularQueue.Holds.{
  Holds, wrap, size-eq, empty-eq, full-eq, iterator-eq, prev-eq, head_dec-eq, head_inc-eq,
  tail_inc-eq, tail_dec-eq, deref-iterator,
}

module _ {A : Type 0} (q : QueueState A) (n : ℕ) (xs : List A) (h : Holds q n xs) where
  open h use {room, word, head_in, fits, tail, elements}

  end-eq : end q ≡ q.tail_pos
  unfolding end
  end-eq = ground (arith, size-eq q n xs h, iterator-eq q n xs h (size q))

  begin-eq : begin q ≡ q.head_pos
  unfolding begin
  begin-eq = ground (arith, iterator-eq q n xs h 0)

  cells-store :
      (pos : ℕ) (v : A) (x : ℕ)
      → pos < q.max_size
      → (store q pos v).cells x ≡ (if x == pos then v else q.cells x)
  unfolding store
  cells-store pos v x lt = rw (mod-eq_of_lt lt)

  pushed_back : (v : A) → length xs < n → Holds (tail_pos_inc (store q (end q) v)) n (xs ++ v ∷ [])
  unfolding tail_pos_inc store
  pushed_back v lt = record {
    room = room;
    word = word;
    head_in = head_in;
    fits = omega (arith, length-append xs (v ∷ []));
    tail = ground (arith, tail_inc-eq q n xs h, length-append xs (v ∷ []));
    elements = λ i hi. ground (
      arith,
      elements i,
      get_elem?-append_last xs v i,
      length-append xs (v ∷ []),
      end-eq,
      cells-store (end q) v (wrap q.max_size (q.head_pos + i)),
    );
  }

  before_begin : prev q (begin q) ≡ (head_pos_dec q).head_pos
  before_begin = ground (arith, begin-eq, prev-eq q n xs h (begin q), head_dec-eq q n xs h)

  front_elements :
      (v : A) (i : ℕ)
      → i < suc (length xs)
      → length xs < n
      → get_elem? (v ∷ xs) i
        ≡ some
            ((store q (prev q (begin q)) v).cells (wrap q.max_size ((head_pos_dec q).head_pos + i)))
  front_elements v zero hi lt = ground (
    arith,
    before_begin,
    head_dec-eq q n xs h,
    cells-store (prev q (begin q)) v (wrap q.max_size ((head_pos_dec q).head_pos + 0)),
  )
  front_elements v (suc i) hi lt = ground (
    arith,
    before_begin,
    head_dec-eq q n xs h,
    elements i,
    cells-store (prev q (begin q)) v (wrap q.max_size ((head_pos_dec q).head_pos + suc i)),
  )

  pushed_front :
      (v : A) → length xs < n → Holds (head_pos_dec (store q (prev q (begin q)) v)) n (v ∷ xs)
  unfolding head_pos_dec store
  pushed_front v lt = record {
    room = room;
    word = word;
    head_in = ground (arith, head_dec-eq q n xs h);
    fits = omega arith;
    tail = ground (arith, head_dec-eq q n xs h);
    elements = λ i hi. front_elements v i hi lt;
  }

  -- On a queue that holds `xs` and has room for `n`, `PushBack` with fewer than `n` elements
  -- succeeds and the queue then holds the element behind all others; with `n` elements it is
  -- refused and changes nothing.
  pub push_back-Holds :
      (v : A)
      → (length xs < n → ((push_back q v).0 ≡ true) × Holds (push_back q v).1 n (xs ++ v ∷ []))
        × (length xs ≡ n → push_back q v ≡ (false, q))
  unfolding push_back
  push_back-Holds v = (
    λ lt.
        let e : full q ≡ false = ground (arith, full-eq q n xs h) in rw e (refl, pushed_back v lt),
    λ eq. let e : full q ≡ true = ground (arith, full-eq q n xs h) in rw e,
  )

  -- On a queue that holds `xs` and has room for `n`, `PushFront` with fewer than `n` elements
  -- succeeds and the queue then holds the element before all others; with `n` elements it is
  -- refused and changes nothing.
  pub push_front-Holds :
      (v : A)
      → (length xs < n → ((push_front q v).0 ≡ true) × Holds (push_front q v).1 n (v ∷ xs))
        × (length xs ≡ n → push_front q v ≡ (false, q))
  unfolding push_front
  push_front-Holds v = (
    λ lt.
        let e : full q ≡ false = ground (arith, full-eq q n xs h) in rw e (refl, pushed_front v lt),
    λ eq. let e : full q ≡ true = ground (arith, full-eq q n xs h) in rw e,
  )

  -- On a queue that holds at least one element, `GetFront` is at the first one, and `GetBack` is
  -- at the last one provided that there are fewer than 2^31.
  pub ends-eq :
      (0 < length xs → get_elem? xs 0 ≡ some (deref q (get_front q)))
      × (0 < length xs
          → length xs < 2 ^ 31
          → get_elem? xs (length xs - 1) ≡ some (deref q (get_back q)))
  unfolding get_front get_back
  ends-eq = (
    λ lt. deref-iterator q n xs h 0 lt,
    λ lt small.
        let last_index : (if ltb (size q % 2 ^ 32) (2 ^ 31) then size q % 2 ^ 32 - 1 else 0)
            ≡ length xs - 1 =
          ground (arith, size-eq q n xs h) in
        rw last_index (deref-iterator q n xs h (length xs - 1) (omega arith)),
  )

module _ {A : Type 0} (q : QueueState A) (n : ℕ) where
  dropped_front : (x : A) (xs : List A) → Holds q n (x ∷ xs) → Holds (head_pos_inc q) n xs
  unfolding head_pos_inc
  dropped_front x xs h = record {
    room = h.room;
    word = h.word;
    head_in = ground (arith, head_inc-eq q n (x ∷ xs) h, h.head_in, h.room);
    fits = omega (arith, h.fits);
    tail = ground (arith, head_inc-eq q n (x ∷ xs) h, h.head_in, h.tail, h.fits, h.room);
    elements = λ i hi.
        h.elements (suc i) (omega arith)
        ∙ ap (λ p. some (q.cells p))
            (ground (arith, head_inc-eq q n (x ∷ xs) h, h.head_in, h.fits, h.room));
  }

  dropped_back : (xs : List A) (x : A) → Holds q n (xs ++ x ∷ []) → Holds (tail_pos_dec q) n xs
  unfolding tail_pos_dec
  dropped_back xs x h = record {
    room = h.room;
    word = h.word;
    head_in = h.head_in;
    fits = omega (arith, h.fits, length-append xs (x ∷ []));
    tail = ground (
      arith,
      tail_dec-eq q n (xs ++ x ∷ []) h,
      h.head_in,
      h.tail,
      h.fits,
      h.room,
      length-append xs (x ∷ []),
    );
    elements = λ i hi.
        ground (arith, h.elements i, get_elem?-append_last xs x i, length-append xs (x ∷ []));
  }

  -- On a queue that holds at least one element, `PopFront` succeeds and the queue then holds all
  -- elements but the first.
  pub pop_front-Holds :
      (x : A) (xs : List A)
      → Holds q n (x ∷ xs)
      → ((pop_front q).0 ≡ true) × Holds (pop_front q).1 n xs
  unfolding pop_front
  pop_front-Holds x xs h =
      let e : empty q ≡ false = ground (arith, empty-eq q n (x ∷ xs) h) in
      rw e (refl, dropped_front x xs h)

  -- On a queue that holds at least one element, `PopBack` succeeds and the queue then holds all
  -- elements but the last.
  pub pop_back-Holds :
      (xs : List A) (x : A)
      → Holds q n (xs ++ x ∷ [])
      → ((pop_back q).0 ≡ true) × Holds (pop_back q).1 n xs
  unfolding pop_back
  pop_back-Holds xs x h =
      let e : empty q ≡ false =
        ground (arith, empty-eq q n (xs ++ x ∷ []) h, length-append xs (x ∷ [])) in
      rw e (refl, dropped_back xs x h)

  -- On an empty queue both are refused and change nothing.
  pub pop-nil : Holds q n [] → (pop_front q ≡ (false, q)) × (pop_back q ≡ (false, q))
  unfolding pop_front pop_back
  pop-nil h = let e : empty q ≡ true = ground (arith, empty-eq q n [] h) in (rw e, rw e)

-- `GetBack` on 2^31 elements or more: the `int` is negative, and the iterator is that of the front.
pub get_back_far :
    {A : Type 0} (q : QueueState A) (n : ℕ) (xs : List A)
    → Holds q n xs
    → 2 ^ 31 ≤ length xs
    → length xs < 2 ^ 32
    → get_back q ≡ get_front q
unfolding get_back get_front
get_back_far q n xs h big small =
    let front : (if ltb (size q % 2 ^ 32) (2 ^ 31) then size q % 2 ^ 32 - 1 else 0) ≡ 0 =
      ground (arith, size-eq q n xs h) in
    rw front

-- A queue in storage of `CalcByteSize(n)` bytes starts empty, with room for `n` elements.
pub init-Holds :
    {A : Type 0} (state_bytes elem_bytes : ℕ) (raw : ℕ → A) (n : ℕ)
    → 0 < elem_bytes
    → n < 2 ^ 62
    → suc n * elem_bytes + state_bytes < 2 ^ 64
    → Holds (init state_bytes elem_bytes raw (calc_byte_size state_bytes elem_bytes n)) n []
unfolding init calc_byte_size
init-Holds state_bytes elem_bytes raw n pos small fits =
    let count : (n + 1) % 2 ^ 64 ≡ suc n = omega arith in
    let room =
      ap (λ t. sub64 (add64 ((t * elem_bytes) % 2 ^ 64) state_bytes) state_bytes / elem_bytes) count
      ∙ ap (λ t. t / elem_bytes) (omega arith)
      ∙ mul-div_cancel (suc n) pos in
    record {
      room = room;
      word = small;
      head_in = ground arith;
      fits = omega arith;
      tail = ground arith;
      elements = λ i hi. elim hi [ ];
    }
