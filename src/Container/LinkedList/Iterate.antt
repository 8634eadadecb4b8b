-- ===== src/Container/LinkedList/Iterate.antt =====
-- Iterators of the list of dev/lsf/container/list.hpp: walking, `Find` and `Erase` of a range.
use lsf.Prelude.{
  ℕ, zero, suc, ◌<◌, ◌≡◌, ◌≢◌, refl, sym, ◌∙◌, ap, ap₂, subst, Bool, true, false, List, [], ◌∷◌,
  ◌++◌, map-append, arith, ◌==◌, mem, if◌then◌else◌, length, length-append, append_assoc,
  mem-append, ==_refl, none, some, Distinct, Distinct-append_right,
}
use lsf.Container.Ring.{first, Chain-first, Chain-split}
use lsf.Container.ListState.{ListState, next, prev, datum, free_node, empty, get_data_ptr}
use lsf.Container.ListState.Links.{Links}
use lsf.Container.ListState.Wf.{Wf, contents, Distinct-used, next-used}
use lsf.Container.ListState.Free.{free-Wf, free-datum}
use lsf.Container.LinkedList.{erase, erase_range, find_loop, find, begin, end, advance, retreat}
use lsf.Container.LinkedList.Holds.{Holds, map_same, empty-eq, end-eq}

module _ {A : Type 0} (s : ListState A) where
  module _ (us fs : List ℕ) (wf : Wf s us fs) where
    -- A position yields its element exactly if it is in the list.
    pub get_data_ptr-eq :
        (x : ℕ) → get_data_ptr s x ≡ (if mem x us then some (datum s.nodes x) else none)
    unfolding get_data_ptr
    get_data_ptr-eq x = ground (arith, wf.flags x, wf.bounds x, mem-append x us fs)

  advance-Links :
      (a : ℕ) (vs ws : List ℕ)
      → Links s.nodes a (vs ++ ws) 0
      → advance s (first (vs ++ ws) 0) (length vs) ≡ first ws 0
  unfolding advance
  advance-Links a [] ws c = refl
  advance-Links a (v ∷ vs) ws c =
      ap (λ q. advance s q (length vs)) (Chain-first _ _ v (vs ++ ws) 0 c.2)
      ∙ advance-Links v vs ws c.2

  -- `begin() + k` is the position of the element with index `k`, and `end()` after the last one.
  pub advance-begin :
      (vs ws fs : List ℕ) → Wf s (vs ++ ws) fs → advance s (begin s) (length vs) ≡ first ws (end s)
  unfolding begin
  advance-begin vs ws fs wf =
      ap (λ q. advance s q (length vs)) wf.head
      ∙ advance-Links 0 vs ws wf.rings.used_ring
      ∙ ap (first ws) (sym (end-eq s (vs ++ ws) fs wf))

  -- `--` undoes `++`, and `++` undoes `--`, at every position of the list and at its end.
  pub retreat-advance :
      (vs : List ℕ) (x : ℕ) (ws fs : List ℕ)
      → Wf s (vs ++ x ∷ ws) fs
      → (retreat s (advance s x 1) 1 ≡ x) × (advance s (retreat s x 1) 1 ≡ x)
  unfolding advance retreat
  retreat-advance vs x ws fs wf =
      let (front, back) = Chain-split _ _ 0 vs x ws 0 wf.rings.used_ring in
      (links_back x ws back, links_on 0 vs x front)
    where
      links_back : (x : ℕ) (ws : List ℕ) → Links s.nodes x ws 0 → prev s.nodes (next s.nodes x) ≡ x
      links_back x [] c = ap (prev s.nodes) c.0 ∙ c.1
      links_back x (w ∷ ws) c = ap (prev s.nodes) c.0 ∙ c.1

      links_on :
          (a : ℕ) (vs : List ℕ) (x : ℕ) → Links s.nodes a vs x → next s.nodes (prev s.nodes x) ≡ x
      links_on a [] x c = ap (next s.nodes) c.1 ∙ c.0
      links_on a (v ∷ vs) x c = links_on v vs x c.2

-- Later parts of a list without repetition start elsewhere.
first_apart : (m : ℕ) (ms ws : List ℕ) → Distinct (m ∷ ms ++ ws) → m ≢ 0 → m ≢ first ws 0
first_apart m ms [] d h e = h e
first_apart m ms (w ∷ ws) d h e = ground (arith, mem-append m ms (w ∷ ws))

-- The first of the positions `us` whose element is the wanted one, or 0.
unfoldable pub find_pos : {A : Type 0} → (A → A → Bool) → (ℕ → A) → List ℕ → A → ℕ
find_pos same value [] v = 0
find_pos same value (x ∷ us) v = if same (value x) v then x else find_pos same value us v

module _ {A : Type 0} (same : A → A → Bool) (s : ListState A) (v : A) where
  find_loop-eq :
      (fuel : ℕ) (vs us fs : List ℕ)
      → Wf s (vs ++ us) fs
      → length us < fuel
      → find_loop same fuel s (first us 0) v ≡ some (find_pos same (datum s.nodes) us v)
  unfolding find_loop find_pos
  find_loop-eq zero vs us fs wf h = absurd (omega arith)
  find_loop-eq (suc fuel) vs [] fs wf h = ground (arith, end-eq s (vs ++ []) fs wf)
  find_loop-eq (suc fuel) vs (x ∷ us) fs wf h =
      let later : find_loop same fuel s (next s.nodes x) v
          ≡ some (find_pos same (datum s.nodes) us v) =
        rw (next-used s.nodes s.empty_head_pos x vs us fs wf.rings) (
          find_loop-eq fuel (vs ++ x ∷ []) us fs
            (subst (λ l. Wf s l fs) (sym (append_assoc vs (x ∷ []) us)) wf) (omega arith)) in
      ground (
        arith,
        later,
        end-eq s (vs ++ x ∷ us) fs wf,
        get_data_ptr-eq s (vs ++ x ∷ us) fs wf x,
        mem-append x vs (x ∷ us),
        mem-append 0 vs (x ∷ us),
        Distinct-used (vs ++ x ∷ us) fs wf.rings.distinct,
      )

  -- On a well-formed list `Find` ends, reads no null pointer, and returns the first used position
  -- with the wanted element, or the end node when there is none.
  pub find-eq :
      (us fs : List ℕ) → Wf s us fs → find same s v ≡ some (find_pos same (datum s.nodes) us v)
  unfolding find
  find-eq us fs wf =
      ap (λ q. find_loop same s.max_size s q v) wf.head
      ∙ find_loop-eq s.max_size [] us fs wf (omega (arith, wf.total))

module _ {A : Type 0} (s : ListState A) where
  erase_ok :
      (vs : List ℕ) (pos : ℕ) (ws fs : List ℕ)
      → Wf s (vs ++ pos ∷ ws) fs
      → erase s pos ≡ (true, free_node s pos)
  unfolding erase
  erase_ok vs pos ws fs wf =
      let busy : empty s ≡ false =
        ground (arith, empty-eq s _ fs wf, length-append vs (pos ∷ ws)) in
      rw busy

  max_size-free : (pos : ℕ) → (free_node s pos).max_size ≡ s.max_size
  unfolding free_node
  max_size-free pos = refl

  contents-free :
      (vs : List ℕ) (pos : ℕ) (ws fs xs : List ℕ)
      → Wf s (vs ++ pos ∷ ws) fs
      → contents (free_node s pos) xs ≡ contents s xs
  contents-free vs pos ws fs xs wf = map_same _ _ xs (λ y h. free-datum s vs pos ws fs wf y)

module _ {A : Type 0} where
  -- On a well-formed list with room for `n`, and with more fuel than the range has elements,
  -- `Erase` of a range ends, succeeds, and the list then holds the elements before and behind the
  -- range.
  pub erase_range-Holds :
      (fuel : ℕ) (s : ListState A) (n : ℕ) (vs ms ws fs : List ℕ)
      → Wf s (vs ++ (ms ++ ws)) fs
      → s.max_size ≡ suc n
      → length ms < fuel
      → (s' : ListState A) × (erase_range fuel s (first (ms ++ ws) 0) (first ws 0)
          ≡ some (true, s'))
        × Holds s' n (contents s vs ++ contents s ws)
  unfolding erase_range
  erase_range-Holds zero s n vs ms ws fs wf room h = absurd (omega arith)
  erase_range-Holds (suc fuel) s n vs [] ws fs wf room h = (
    s,
    rw (==_refl (first ws 0)) refl,
    record {
      used_pos = vs ++ ws;
      unused_pos = fs;
      wf = wf;
      elements = map-append (datum s.nodes) vs ws;
      room = room;
    },
  )
  erase_range-Holds (suc fuel) s n vs (m ∷ ms) ws fs wf room h =
      let s1 = free_node s m in
      let wf1 = free-Wf s vs m (ms ++ ws) fs wf in
      let (s', e, holds) =
        erase_range-Holds fuel s1 n vs ms ws (fs ++ m ∷ []) wf1 (room_kept s m n room)
          (omega arith) in
      let d = Distinct-used (vs ++ m ∷ (ms ++ ws)) fs wf.rings.distinct in
      let apart : (m == first ws 0) ≡ false = ground (
        arith,
        first_apart m ms ws (Distinct-append_right (0 ∷ vs) (m ∷ (ms ++ ws)) d),
        mem-append 0 vs (m ∷ (ms ++ ws)),
        d,
      ) in
      (
        s',
        rw
            (
              apart,
              erase_ok s vs m (ms ++ ws) fs wf,
              next-used s.nodes s.empty_head_pos m vs (ms ++ ws) fs wf.rings,
            )
            e,
        subst (Holds s' n)
            (ap₂ (λ a b. a ++ b) (contents-free s vs m (ms ++ ws) fs vs wf)
              (contents-free s vs m (ms ++ ws) fs ws wf))
            holds,
      )
    where
      room_kept :
          (s : ListState A) (m n : ℕ) → s.max_size ≡ suc n → (free_node s m).max_size ≡ suc n
      room_kept s m n e = max_size-free s m ∙ e
