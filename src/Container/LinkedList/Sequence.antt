-- ===== src/Container/LinkedList/Sequence.antt =====
-- The updates of `List` on the sequence of its elements.
use lsf.Prelude.{
  ℕ, zero, suc, ◌+◌, ◌<◌, ◌≡◌, refl, sym, ◌∙◌, ap, subst, Bool, true, false, List, [], ◌∷◌, ◌++◌,
  arith, ◌==◌, length, length-append, length-map, append-nil, up_from, ◌*◌, ◌^◌,
}
use lsf.Container.Ring.{first}
use lsf.Container.ListState.{ListState, Nodes, Layout, datum, full, empty, init, calc_byte_size}
use lsf.Container.ListState.Wf.{Wf, contents}
use lsf.Container.ListState.Init.{init-Wf, calc-room}
use lsf.Container.LinkedList.{push_back, push_front, pop_front, pop_back, insert, erase, end}
use lsf.Container.LinkedList.Holds.{Holds, Adds, full-eq, empty-eq, end-eq, put-Holds, freed-Holds}

module _ {A : Type 0} (s : ListState A) where
  module _ (n : ℕ) (us fs : List ℕ) (wf : Wf s us fs) (room : s.max_size ≡ suc n) where
    full_iff : full s ≡ (length us == n)
    full_iff = full-eq s us fs wf ∙ ap (◌==◌ (length us)) (omega (arith, wf.total, room))

    length-contents : length (contents s us) ≡ length us
    length-contents = length-map (datum s.nodes) us

  -- On a well-formed list with room for `n`, `Insert` before any used position, or at the end,
  -- succeeds with fewer than `n` elements and the list then holds the element in that place; with
  -- `n` elements it is refused and changes nothing.
  pub insert-Adds :
      (n : ℕ) (vs ws fs : List ℕ) (v : A)
      → Wf s (vs ++ ws) fs
      → s.max_size ≡ suc n
      → Adds s n
          (contents s (vs ++ ws))
          (insert s (first ws 0) v)
          (contents s vs ++ v ∷ contents s ws)
  unfolding insert
  insert-Adds n vs ws [] v wf room = (
    λ h. absurd (omega (arith, wf.total, room, length-contents n (vs ++ ws) [] wf room, h)),
    λ h. ground (arith, full_iff n (vs ++ ws) [] wf room, length-contents n (vs ++ ws) [] wf room),
  )
  insert-Adds n vs ws (x ∷ fs) v wf room = (
    λ h.
        let c = length-contents n (vs ++ ws) (x ∷ fs) wf room in
        let open_ : full s ≡ false = ground (arith, full_iff n (vs ++ ws) (x ∷ fs) wf room) in
        rw open_ (refl, put-Holds s n vs ws x fs v wf room),
    λ h. absurd (omega (arith, wf.total, room, length-contents n (vs ++ ws) (x ∷ fs) wf room, h)),
  )

  Adds-eq :
      (n : ℕ) (xs xs' : List A) (r r' : Bool × ListState A) (ys ys' : List A)
      → xs ≡ xs'
      → r ≡ r'
      → ys ≡ ys'
      → Adds s n xs r ys
      → Adds s n xs' r' ys'
  Adds-eq n xs xs' r r' ys ys' e1 e2 e3 a =
      subst (λ ys. Adds s n xs' r' ys) e3
        (subst (λ r. Adds s n xs' r ys) e2 (subst (λ xs. Adds s n xs r ys) e1 a))

  module _ (n : ℕ) (xs : List A) (v : A) (holds : Holds s n xs) where
    open holds use {used_pos as us, unused_pos as fs, wf, elements, room}

    push_back-insert : insert s 0 v ≡ push_back s v
    unfolding push_back insert end
    push_back-insert = ap (λ q. insert s q v) (sym (end-eq s us fs wf))

    push_front-insert : insert s (first us 0) v ≡ push_front s v
    unfolding push_front insert
    push_front-insert = ap (λ q. insert s q v) (sym wf.head)

    -- On a list that holds `xs` and has room for `n`, `PushBack` with fewer than `n` elements
    -- succeeds and the list then holds the element behind all others; with `n` elements it is
    -- refused and changes nothing.
    pub push_back-Adds : Adds s n xs (push_back s v) (xs ++ v ∷ [])
    push_back-Adds =
        Adds-eq n _ _ _ _ _ _ (ap (contents s) (append-nil us) ∙ elements) push_back-insert
          (ap (λ l. l ++ v ∷ []) elements)
          (insert-Adds n us [] fs v (subst (λ l. Wf s l fs) (sym (append-nil us)) wf) room)

    -- On a list that holds `xs` and has room for `n`, `PushFront` with fewer than `n` elements
    -- succeeds and the list then holds the element before all others; with `n` elements it is
    -- refused and changes nothing.
    pub push_front-Adds : Adds s n xs (push_front s v) (v ∷ xs)
    push_front-Adds =
        Adds-eq n _ _ _ _ _ _ elements push_front-insert (ap (◌∷◌ v) elements)
          (insert-Adds n [] us fs v wf room)

  -- On a well-formed list with room for `n`, `Erase` at any used position succeeds and the list
  -- then holds the other elements in order.
  pub erase-Holds :
      (n : ℕ) (vs : List ℕ) (pos : ℕ) (ws fs : List ℕ)
      → Wf s (vs ++ pos ∷ ws) fs
      → s.max_size ≡ suc n
      → ((erase s pos).0 ≡ true) × Holds (erase s pos).1 n (contents s vs ++ contents s ws)
  unfolding erase
  erase-Holds n vs pos ws fs wf room =
      let busy : empty s ≡ false =
        ground (arith, empty-eq s _ fs wf, length-append vs (pos ∷ ws)) in
      rw busy (refl, freed-Holds s n vs pos ws fs wf room)

  pop_front-erase : (us fs : List ℕ) → Wf s us fs → erase s (first us 0) ≡ pop_front s
  unfolding pop_front erase
  pop_front-erase us fs wf = ap (erase s) (sym wf.head)

  pop_front-used :
      (n : ℕ) (us fs : List ℕ) (x : A) (xs : List A)
      → Wf s us fs
      → s.max_size ≡ suc n
      → contents s us ≡ x ∷ xs
      → ((pop_front s).0 ≡ true) × Holds (pop_front s).1 n xs
  pop_front-used n [] fs x xs wf room e = absurd (cc)
  pop_front-used n (p ∷ us) fs x xs wf room e =
      subst (λ r. (r.0 ≡ true) × Holds r.1 n xs) (pop_front-erase (p ∷ us) fs wf)
        (subst (λ l. ((erase s p).0 ≡ true) × Holds (erase s p).1 n l) (ground arith)
          (erase-Holds n [] p us fs wf room))

  -- On a list that holds at least one element, `PopFront` succeeds and the list then holds all
  -- elements but the first.
  pub pop_front-cons :
      (n : ℕ) (x : A) (xs : List A)
      → Holds s n (x ∷ xs)
      → ((pop_front s).0 ≡ true) × Holds (pop_front s).1 n xs
  pop_front-cons n x xs holds =
      pop_front-used n holds.used_pos holds.unused_pos x xs holds.wf holds.room holds.elements

  -- On an empty list `PopFront`, `PopBack` and `Erase` are refused and change nothing.
  pub pop_front-nil :
      (n : ℕ) (iter : ℕ)
      → Holds s n []
      → (pop_front s ≡ (false, s)) × (pop_back s ≡ (false, s)) × (erase s iter ≡ (false, s))
  unfolding pop_front pop_back erase
  pop_front-nil n iter holds =
      let none_left : length holds.used_pos ≡ 0 =
        sym (length-map (datum s.nodes) holds.used_pos) ∙ ap length holds.elements in
      let e : empty s ≡ true =
        empty-eq s holds.used_pos holds.unused_pos holds.wf ∙ ap (λ k. k == 0) none_left in
      (rw e, rw e, rw e)

-- A list state in storage of `CalcByteSize(n)` bytes holds no element and has room for `n`, for
-- `n` above 0, nodes of at least one byte and a size below 2^64.
pub init-calc_byte_size :
    {A : Type 0} (layout : Layout) (raw : Nodes A) (n : ℕ)
    → 0 < layout.node_bytes
    → 0 < n
    → suc n * layout.node_bytes + layout.state_bytes < 2 ^ 64
    → Holds (init layout raw (calc_byte_size layout n)) n []
unfolding init
init-calc_byte_size layout raw zero pos h fits = elim h [ ]
init-calc_byte_size layout raw (suc k) pos h fits = record {
  used_pos = [];
  unused_pos = up_from 1 (suc k);
  wf = init-Wf layout raw _ k (calc-room layout (suc k) pos fits) (grind arith);
  elements = refl;
  room = calc-room layout (suc k) pos fits;
}
