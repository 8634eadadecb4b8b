-- ===== src/Util/Replace/Total.antt =====
-- Both replacements end on a pattern that is not empty, with the same result.
use lsf.Prelude.{
  ℕ, zero, suc, ◌+◌, ◌-◌, ◌≤◌, ◌<◌, ◌≡◌, refl, sym, ◌∙◌, ap, subst, true, Option, none, some, List,
  [], ◌∷◌, ◌++◌, arith, length, length-append, append_assoc, inl, inr, Option-cases,
}
use lsf.Util.Bytes.{
  take, drop, drop-drop, length-drop, length-take, take-append, drop-append, substr,
}
use native.Mathlib.Nat.{add-zero}
use lsf.Util.Replace.{
  is_prefix, occurrence, find_from, replace_loop, replace, inplace_loop, replace_inplace,
}

regroup : (a b c : ℕ) → a + b + c ≡ a + (b + c)
regroup a b c = omega arith

module _ (pat replacement : List ℕ) where
  -- The replacement on what is left of the string: the first occurrence, then the rest.
  unfoldable pub replaced : ℕ → List ℕ → Option (List ℕ)
  replaced zero s = none
  replaced (suc fuel) s = elim (occurrence pat s) [
    | none ↦ some s
    | some i ↦ elim (replaced fuel (drop (i + length pat) s)) [
      | none ↦ none
      | some r ↦ some (take i s ++ (replacement ++ r))
    ]
  ]

  prefix-le : (pat s : List ℕ) → is_prefix pat s ≡ true → length pat ≤ length s
  prefix-le [] s h = omega arith
  prefix-le (p ∷ pat) [] h = cc
  prefix-le (p ∷ pat) (c ∷ s) h = ground (arith, prefix-le pat s)

  occurrence-le : (s : List ℕ) (i : ℕ) → occurrence pat s ≡ some i → i + length pat ≤ length s
  unfolding occurrence
  occurrence-le [] i h = ground (arith, prefix-le pat [])
  occurrence-le (c ∷ s) i h = elim (Option-cases (occurrence pat s)) [
    | inl e ↦ ground (arith, e, prefix-le pat (c ∷ s))
    | inr (j, e) ↦ ground (arith, e, occurrence-le s j e, prefix-le pat (c ∷ s))
  ]

  replaced-total :
      (fuel : ℕ) (s : List ℕ)
      → 0 < length pat
      → length s < fuel
      → (r : List ℕ) × (replaced fuel s ≡ some r)
  unfolding replaced
  replaced-total zero s ne h = absurd (omega arith)
  replaced-total (suc fuel) s ne h = elim (Option-cases (occurrence pat s)) [
    | inl e ↦ (s, ground (arith, e))
    | inr (i, e) ↦
        let (r, later) =
          replaced-total fuel (drop (i + length pat) s) ne
            (omega (arith, length-drop (i + length pat) s, occurrence-le s i e)) in
        (take i s ++ (replacement ++ r), ground (arith, e, later))
  ]

  found-none :
      (s : List ℕ) (pos : ℕ)
      → pos ≤ length s
      → occurrence pat (drop pos s) ≡ none
      → find_from pat s pos ≡ none
  unfolding find_from
  found-none s pos h e = ground (arith, e)

  found-some :
      (s : List ℕ) (pos i : ℕ)
      → pos ≤ length s
      → occurrence pat (drop pos s) ≡ some i
      → find_from pat s pos ≡ some (pos + i)
  unfolding find_from
  found-some s pos i h e = ground (arith, e)

  -- The text before `last` is done, and stands in `tmp`.
  replace_loop-replaced :
      (fuel : ℕ) (src tmp : List ℕ) (last : ℕ) (r : List ℕ)
      → last ≤ length src
      → replaced fuel (drop last src) ≡ some r
      → replace_loop fuel src pat replacement tmp last ≡ some (tmp ++ r)
  unfolding replaced replace_loop
  replace_loop-replaced zero src tmp last r h e = cc
  replace_loop-replaced (suc fuel) src tmp last r h e =
      elim (Option-cases (occurrence pat (drop last src))) [
        | inl o ↦ ground (arith, o, found-none src last h o)
        | inr (i, o) ↦ elim (Option-cases (replaced fuel (drop (i + length pat) (drop last src)))) [
          | inl gone ↦ absurd (ground (arith, o, gone))
          | inr (r', later) ↦
              let same : drop (last + i + length pat) src ≡ drop (i + length pat) (drop last src) =
                ap (λ (k : ℕ). drop k src) (regroup last i (length pat))
                ∙ sym (drop-drop (i + length pat) last src) in
              let inside : last + i + length pat ≤ length src =
                omega (arith, occurrence-le (drop last src) i o, length-drop last src) in
              let rest =
                replace_loop-replaced fuel src
                  (tmp ++ (take (last + i - last) (drop last src) ++ replacement))
                  (last + i + length pat) r' inside (ap (replaced fuel) same ∙ later) in
              let count : last + i - last ≡ i = omega arith in
              let pieces : (tmp ++ (take (last + i - last) (drop last src) ++ replacement)) ++ r'
                  ≡ tmp ++ (take i (drop last src) ++ (replacement ++ r')) =
                rw count (
                  append_assoc tmp (take i (drop last src) ++ replacement) r'
                  ∙ ap (◌++◌ tmp) (append_assoc (take i (drop last src)) replacement r')) in
              ground (arith, o, found-some src last i h o, later, rest, pieces)
        ]
      ]

  -- The text before the position is done.
  inplace_loop-replaced :
      (fuel : ℕ) (done s r : List ℕ)
      → replaced fuel s ≡ some r
      → inplace_loop fuel (done ++ s) pat replacement (length done) ≡ some (done ++ r)
  unfolding replaced inplace_loop
  inplace_loop-replaced zero done s r e = cc
  inplace_loop-replaced (suc fuel) done s r e = elim (Option-cases (occurrence pat s)) [
    | inl o ↦
        let miss = found-none (done ++ s) (length done) here (rw behind o) in
        ground (arith, o, miss)
    | inr (i, o) ↦ elim (Option-cases (replaced fuel (drop (i + length pat) s))) [
      | inl gone ↦ absurd (ground (arith, o, gone))
      | inr (r', later) ↦
          let hit = found-some (done ++ s) (length done) i here (rw behind o) in
          let next = done ++ (take i s ++ replacement) in
          let rest = inplace_loop-replaced fuel next (drop (i + length pat) s) r' later in
          let position : length next ≡ length done + i + length replacement = omega (
            arith,
            length-append done (take i s ++ replacement),
            length-append (take i s) replacement,
            length-take i s (omega (arith, occurrence-le s i o)),
          ) in
          let kept : take (length done + i) (done ++ s)
                ++ (replacement ++ drop (length done + i + length pat) (done ++ s))
              ≡ next ++ drop (i + length pat) s =
            rw
              (
                take-append done s i,
                regroup (length done) i (length pat),
                drop-append done s (i + length pat),
              )
              (append_assoc done (take i s) (replacement ++ drop (i + length pat) s)
                ∙ ap (◌++◌ done)
                    (sym (append_assoc (take i s) replacement (drop (i + length pat) s)))
                ∙ sym (append_assoc done (take i s ++ replacement) (drop (i + length pat) s))) in
          let pieces : next ++ r' ≡ done ++ (take i s ++ (replacement ++ r')) =
            append_assoc done (take i s ++ replacement) r'
            ∙ ap (◌++◌ done) (append_assoc (take i s) replacement r') in
          ground (arith, o, hit, later, rest, position, kept, pieces)
    ]
  ]
    where
      here : length done ≤ length (done ++ s)
      here = omega (arith, length-append done s)

      behind : drop (length done) (done ++ s) ≡ s
      behind = subst (λ k. drop k (done ++ s) ≡ s) (add-zero (length done)) (drop-append done s 0)

  -- For a pattern that is not empty, `Replace` and `ReplaceInplace` with fuel of one more than
  -- the length both end, with one result: the string with its occurrences replaced from the left,
  -- none overlapping.
  pub replace-total :
      (s : List ℕ)
      → 0 < length pat
      → (r : List ℕ) × (replaced (length s + 1) s ≡ some r)
        × (replace (length s + 1) s pat replacement ≡ some r)
        × (replace_inplace (length s + 1) s pat replacement ≡ some r)
  unfolding replace replace_inplace
  replace-total s ne =
      let (r, e) = replaced-total (length s + 1) s ne (omega arith) in
      (
        r,
        e,
        replace_loop-replaced (length s + 1) s [] 0 r (omega arith) e,
        inplace_loop-replaced (length s + 1) [] s r e,
      )

occurrence-nil : (s : List ℕ) → occurrence [] s ≡ some 0
unfolding occurrence
occurrence-nil [] = refl
occurrence-nil (c ∷ s) = refl

found-nil : (s : List ℕ) (pos : ℕ) → pos ≤ length s → find_from [] s pos ≡ some pos
found-nil s pos h =
    found-some [] [] s pos 0 h (occurrence-nil (drop pos s)) ∙ ap some (add-zero pos)

module _ (replacement : List ℕ) where
  replace_loop-nil :
      (fuel : ℕ) (s tmp : List ℕ) (last : ℕ)
      → last ≤ length s
      → replace_loop fuel s [] replacement tmp last ≡ none
  unfolding replace_loop
  replace_loop-nil zero s tmp last h = refl
  replace_loop-nil (suc fuel) s tmp last h =
      let rest =
        replace_loop-nil fuel s (tmp ++ (substr s last (last - last) ++ replacement)) (last + 0)
          (omega arith) in
      ground (arith, found-nil s last h, rest)

  inplace_loop-nil :
      (fuel : ℕ) (s : List ℕ) (from : ℕ)
      → from ≤ length s
      → inplace_loop fuel s [] replacement from ≡ none
  unfolding inplace_loop
  inplace_loop-nil zero s from h = refl
  inplace_loop-nil (suc fuel) s from h =
      let grown : List ℕ = take from s ++ (replacement ++ drop (from + 0) s) in
      let rest = inplace_loop-nil fuel grown (from + length replacement) (
        omega (
          arith,
          length-append (take from s) (replacement ++ drop (from + 0) s),
          length-append replacement (drop (from + 0) s),
          length-take from s h,
        )) in
      ground (arith, found-nil s from h, rest)

-- For the empty pattern neither `Replace` nor `ReplaceInplace` ends, whatever the fuel.
pub replace-never_ends :
    (fuel : ℕ) (s replacement : List ℕ)
    → (replace fuel s [] replacement ≡ none) × (replace_inplace fuel s [] replacement ≡ none)
unfolding replace replace_inplace
replace-never_ends fuel s replacement = (
  replace_loop-nil replacement fuel s [] 0 (omega arith),
  inplace_loop-nil replacement fuel s 0 (omega arith),
)
