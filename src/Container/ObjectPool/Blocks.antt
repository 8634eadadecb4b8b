-- ===== src/Container/ObjectPool/Blocks.antt =====
-- The pool as an allocator: fresh positions, stable elements, and no loss.
use lsf.Prelude.{
  ℕ, suc, ◌-◌, ◌<◌, ◌≡◌, ◌≢◌, refl, sym, ◌∙◌, ap, subst, true, false, List, [], ◌∷◌, ◌++◌, arith,
  ◌==◌, mem, if◌then◌else◌, length, length-append, append-nil, mem-append, none, some,
  Distinct-delete, Bool-cases, inl, inr,
}
use lsf.Container.ListState.{ListState, datum, free_node, full, get_new_node_and_insert}
use lsf.Container.ListState.Wf.{Wf}
use lsf.Container.ListState.Free.{free-Wf, free-datum, freed_pos}
use lsf.Container.ListState.Insert.{insert-Wf}
use lsf.Container.LinkedList.{put}
use lsf.Container.LinkedList.Holds.{put-Wf, datum-put, full-eq, before_head}
use lsf.Container.LinkedList.Iterate.{get_data_ptr-eq}
use lsf.Container.ObjectPool.{ok, thrown, malloc, free, get_ptr, get}

-- The pool is well formed with `used` objects, and has room for `n`.
pub record Valid {A : Type 0} (s : ListState A) (n count : ℕ) : Type 0 where
  pub used_pos : List ℕ
  pub unused_pos : List ℕ
  pub wf : Wf s used_pos unused_pos
  pub counted : length used_pos ≡ count
  pub room : s.max_size ≡ suc n

-- A member of a list splits it.
pub mem-split :
    (x : ℕ) (xs : List ℕ) → mem x xs ≡ true → (vs : List ℕ) × (ws : List ℕ) × (xs ≡ vs ++ x ∷ ws)
mem-split x [] h = absurd (cc)
mem-split x (y ∷ xs) h = elim (Bool-cases (x == y)) [
  | inl e ↦ ([], xs, ground arith)
  | inr e ↦ let (vs, ws, e') = mem-split x xs (ground arith) in (y ∷ vs, ws, ap (◌∷◌ y) e')
]

-- What a well-formed pool reads, at every position.
reads :
    {A : Type 0} (s : ListState A) (us fs : List ℕ)
    → Wf s us fs
    → (y : ℕ) → get_ptr s y ≡ (if mem y us then some (datum s.nodes y) else none)
unfolding get_ptr
reads s us fs wf = get_data_ptr-eq s us fs wf

module _ {A : Type 0} (s : ListState A) where
  malloc-put :
      (us fs : List ℕ) (v : A)
      → Wf s us fs
      → full s ≡ false
      → malloc s v ≡ ok ((get_new_node_and_insert s 0).0, (put s 0 v).1)
  unfolding malloc
  malloc-put us fs v wf e = rw (e, before_head s us fs wf) refl

  malloc_used :
      (n : ℕ) (us fs : List ℕ) (v : A)
      → Wf s us fs
      → s.max_size ≡ suc n
      → length us < n
      → (pos : ℕ) × (s' : ListState A) × (malloc s v ≡ ok (pos, s'))
        × Valid s' n (suc (length us))
        × (pos ≢ 0)
        × (get_ptr s pos ≡ none)
        × ((x : ℕ) → get_ptr s' x ≡ (if x == pos then some v else get_ptr s x))
  unfolding get_new_node_and_insert
  malloc_used n us [] v wf room h = absurd (omega (arith, wf.total))
  malloc_used n us (p ∷ fs) v wf room h =
      let wf0 : Wf s (us ++ []) (p ∷ fs) = subst (λ l. Wf s l (p ∷ fs)) (sym (append-nil us)) wf in
      let not_full : full s ≡ false = ground (arith, full-eq s us (p ∷ fs) wf) in
      let fresh = (Distinct-delete p (0 ∷ us) fs wf.rings.distinct).1 in
      let put_wf = put-Wf s us [] p fs v wf0 in
      let s' = (put s 0 v).1 in
      (
        p,
        s',
        malloc-put us (p ∷ fs) v wf not_full ∙ ap (λ q. ok (q, s')) (insert-Wf s us [] p fs wf0).0,
        record {
          used_pos = us ++ p ∷ [];
          unused_pos = fs;
          wf = put_wf;
          counted = omega (arith, length-append us (p ∷ []));
          room = room;
        },
        ground arith,
        ground (arith, reads s us (p ∷ fs) wf p, mem-append p us fs),
        λ x. ground (
          arith,
          reads s us (p ∷ fs) wf x,
          reads s' (us ++ p ∷ []) fs put_wf x,
          datum-put s us [] p fs v wf0 x,
          mem-append x us (p ∷ []),
          mem-append p us fs,
        ),
      )

  free-node : (x : ℕ) (v : A) → get_ptr s x ≡ some v → free s x ≡ ok (true, free_node s x)
  unfolding free get_ptr
  free-node x v h = ground arith

  freed_reads :
      (n : ℕ) (vs : List ℕ) (x : ℕ) (ws fs : List ℕ)
      → Wf s (vs ++ x ∷ ws) fs
      → (y : ℕ) → get_ptr (free_node s x) y ≡ (if y == x then none else get_ptr s y)
  freed_reads n vs x ws fs wf y = ground (
    arith,
    reads (free_node s x) (vs ++ ws) (fs ++ x ∷ []) (free-Wf s vs x ws fs wf) y,
    reads s (vs ++ x ∷ ws) fs wf y,
    free-datum s vs x ws fs wf y,
    freed_pos s vs x ws fs wf,
    mem-append x (vs ++ ws) fs,
    mem-append y vs ws,
    mem-append y vs (x ∷ ws),
  )

  free_used :
      (n : ℕ) (vs : List ℕ) (x : ℕ) (ws fs : List ℕ)
      → Wf s (vs ++ x ∷ ws) fs
      → s.max_size ≡ suc n
      → Valid (free_node s x) n (length (vs ++ x ∷ ws) - 1)
        × ((y : ℕ) → get_ptr (free_node s x) y ≡ (if y == x then none else get_ptr s y))
  unfolding free_node
  free_used n vs x ws fs wf room = (
    record {
      used_pos = vs ++ ws;
      unused_pos = fs ++ x ∷ [];
      wf = free-Wf s vs x ws fs wf;
      counted = omega (arith, length-append vs (x ∷ ws), length-append vs ws);
      room = room;
    },
    freed_reads n vs x ws fs wf,
  )

module _ {A : Type 0} (s : ListState A) (n count : ℕ) (valid : Valid s n count) where
  open valid use {used_pos as us, unused_pos as fs, wf, counted, room}

  -- On a valid pool with fewer objects than it has room for, `Malloc` gives a position other than
  -- 0 that held no object; the pool is valid with one object more, the position yields the stored
  -- value, and all other positions yield what they did.
  pub malloc-ok :
      (v : A)
      → count < n
      → (pos : ℕ) × (s' : ListState A) × (malloc s v ≡ ok (pos, s'))
        × Valid s' n (suc count)
        × (pos ≢ 0)
        × (get_ptr s pos ≡ none)
        × ((x : ℕ) → get_ptr s' x ≡ (if x == pos then some v else get_ptr s x))
  malloc-ok v h =
      let (pos, s', e, v', ne, was, now) = malloc_used s n us fs v wf room (omega arith) in
      (pos, s', e, subst (λ k. Valid s' n (suc k)) counted v', ne, was, now)

  -- A full pool throws.
  pub malloc-full : (v : A) → count ≡ n → malloc s v ≡ thrown
  unfolding malloc
  malloc-full v h =
      let all_used : full s ≡ true = ground (arith, full-eq s us fs wf, wf.total) in rw all_used

  -- On a valid pool, `Free` of a position that holds an object succeeds; the pool is valid with
  -- one object less, the position yields nothing, and all other positions yield what they did.
  pub free-ok :
      (x : ℕ) (v : A)
      → get_ptr s x ≡ some v
      → (s' : ListState A) × (free s x ≡ ok (true, s'))
        × Valid s' n (count - 1)
        × ((y : ℕ) → get_ptr s' y ≡ (if y == x then none else get_ptr s y))
  free-ok x v h =
      let (vs, ws, e) = mem-split x us (ground (arith, reads s us fs wf x)) in
      let wf' : Wf s (vs ++ x ∷ ws) fs = subst (λ l. Wf s l fs) e wf in
      let (valid', reads') = free_used s n vs x ws fs wf' room in
      (
        free_node s x,
        free-node s x v h,
        subst (λ k. Valid (free_node s x) n (k - 1)) (ap length (sym e) ∙ counted) valid',
        reads',
      )

  -- On a valid pool, `Free` and `Get` throw at any position that holds no object.
  pub free-thrown : (x : ℕ) → get_ptr s x ≡ none → (free s x ≡ thrown) × (get s x ≡ thrown)
  unfolding free get get_ptr
  free-thrown x h = (ground arith, ground arith)
