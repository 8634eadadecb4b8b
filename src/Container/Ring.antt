-- ===== src/Container/Ring.antt =====
-- Rings of positions joined by `next` and `prev` links, as the list nodes of
-- dev/lsf/container/detail/impl_bidirectional_list.hpp form them.
use lsf.Prelude.{
  ℕ, ◌≡◌, ◌≢◌, refl, sym, sym, ◌∙◌, true, false, List, [], ◌∷◌, ◌++◌, arith, ◌==◌, mem, Distinct,
  Distinct-append_left, Distinct-append_right, Distinct-apart, mem-append, append-nil, subst,
  Bool-cases, if◌then◌else◌,
}

-- From `a` the links lead through `xs` to `b`, and back.
abbrev pub Chain : (ℕ → ℕ) → (ℕ → ℕ) → ℕ → List ℕ → ℕ → Type 0
Chain n p a [] b = (n a ≡ b) × (p b ≡ a)
Chain n p a (x ∷ xs) b = (n a ≡ x) × (p x ≡ a) × Chain n p x xs b

-- The last position before the end of a chain.
abbrev pub last : ℕ → List ℕ → ℕ
last a [] = a
last a (x ∷ xs) = last x xs

abbrev pub first : List ℕ → ℕ → ℕ
first [] b = b
first (x ∷ xs) b = x

module _ (n p : ℕ → ℕ) where
  pub Chain-last : (a : ℕ) (xs : List ℕ) (b : ℕ) → Chain n p a xs b → p b ≡ last a xs
  Chain-last a [] b c = c.1
  Chain-last a (x ∷ xs) b c = Chain-last x xs b c.2

  pub Chain-first : (a : ℕ) (xs : List ℕ) (b : ℕ) → Chain n p a xs b → n a ≡ first xs b
  Chain-first a [] b c = c.0
  Chain-first a (x ∷ xs) b c = c.0

  pub Chain-append :
      (a : ℕ) (xs : List ℕ) (x : ℕ) (ys : List ℕ) (b : ℕ)
      → Chain n p a xs x
      → Chain n p x ys b
      → Chain n p a (xs ++ x ∷ ys) b
  Chain-append a [] x ys b c d = (c.0, c.1, d)
  Chain-append a (y ∷ xs) x ys b c d = (c.0, c.1, Chain-append y xs x ys b c.2 d)

  pub Chain-split :
      (a : ℕ) (xs : List ℕ) (x : ℕ) (ys : List ℕ) (b : ℕ)
      → Chain n p a (xs ++ x ∷ ys) b
      → Chain n p a xs x × Chain n p x ys b
  Chain-split a [] x ys b c = ((c.0, c.1), c.2)
  Chain-split a (y ∷ xs) x ys b c =
      let (front, back) = Chain-split y xs x ys b c.2 in ((c.0, c.1, front), back)

module _ (n p : ℕ → ℕ) where
  -- The part of a chain before any of its positions, or before its end.
  pub Chain-prefix :
      (a : ℕ) (vs ws : List ℕ) (b : ℕ) → Chain n p a (vs ++ ws) b → Chain n p a vs (first ws b)
  Chain-prefix a vs [] b c = rw append-nil at c
  Chain-prefix a vs (w ∷ ws) b c = (Chain-split n p a vs w ws b c).0

pub mem-first : (vs ws : List ℕ) (b : ℕ) → mem (first ws b) (b ∷ vs ++ ws) ≡ true
mem-first vs [] b = ground arith
mem-first vs (w ∷ ws) b = ground (arith, mem-append w vs (w ∷ ws))

pub mem-first_of_append :
    (vs : List ℕ) (x : ℕ) (ws : List ℕ) (b : ℕ) → mem (first ws b) (b ∷ vs ++ x ∷ ws) ≡ true
mem-first_of_append vs x [] b = ground arith
mem-first_of_append vs x (w ∷ ws) b = ground (arith, mem-append w vs (x ∷ w ∷ ws))

-- What follows `x` in a list without repetition is another position, or the end.
pub first-ne : (x : ℕ) (ws : List ℕ) → Distinct (x ∷ ws) → first ws 0 ≡ x → x ≡ 0
first-ne x [] d e = sym e
first-ne x (w ∷ ws) d e = ground arith

pub mem-last : (a : ℕ) (xs : List ℕ) → mem (last a xs) (a ∷ xs) ≡ true
mem-last a [] = ground arith
mem-last a (x ∷ xs) = ground (arith, mem-last x xs)

pub last-append : (a : ℕ) (xs : List ℕ) (x : ℕ) (ys : List ℕ) → last a (xs ++ x ∷ ys) ≡ last x ys
last-append a [] x ys = refl
last-append a (y ∷ xs) x ys = last-append y xs x ys

module _ (n p n' p' : ℕ → ℕ) where
  -- A chain survives writes elsewhere.
  pub Chain-frame :
      (a : ℕ) (xs : List ℕ) (b : ℕ)
      → Chain n p a xs b
      → ((x : ℕ) → mem x (a ∷ xs) ≡ true → n' x ≡ n x)
      → ((x : ℕ) → mem x (b ∷ xs) ≡ true → p' x ≡ p x)
      → Chain n' p' a xs b
  Chain-frame a [] b c hn hp = (hn a (ground arith) ∙ c.0, hp b (ground arith) ∙ c.1)
  Chain-frame a (x ∷ xs) b c hn hp = (
    hn a (ground arith) ∙ c.0,
    hp x (ground arith) ∙ c.1,
    Chain-frame x xs b c.2 (λ y h. hn y (ground arith)) (λ y h. hp y (ground arith)),
  )

  -- The end of a chain is moved to `y` by writing the two links there.
  pub Chain-relink :
      (a : ℕ) (xs : List ℕ) (b y : ℕ)
      → Chain n p a xs b
      → Distinct (a ∷ xs)
      → ((x : ℕ) → mem x (a ∷ xs) ≡ true → x ≢ last a xs → n' x ≡ n x)
      → ((x : ℕ) → mem x xs ≡ true → p' x ≡ p x)
      → n' (last a xs) ≡ y
      → p' y ≡ last a xs
      → Chain n' p' a xs y
  Chain-relink a [] b y c d hn hp en ep = (en, ep)
  Chain-relink a (x ∷ xs) b y c d hn hp en ep = (
    hn a (ground arith) (ground (arith, mem-last x xs)) ∙ c.0,
    hp x (ground arith) ∙ c.1,
    Chain-relink x xs b y c.2 d.1 (λ z h. hn z (ground arith)) (λ z h. hp z (ground arith)) en ep,
  )

-- `pos` is linked in before `q`.
module _ (n p n' p' : ℕ → ℕ) (pos q : ℕ) (ne : pos ≢ q)
    (hn : (x : ℕ) → n' x ≡ (if x == p q then pos else if x == pos then q else n x))
    (hp : (x : ℕ) → p' x ≡ (if x == q then pos else if x == pos then p q else p x)) where
  -- A chain to `q` then ends with `pos`, and goes on to `q`.
  pub Chain-insert :
      (a : ℕ) (us : List ℕ)
      → Chain n p a us q
      → Distinct (a ∷ us)
      → mem pos (a ∷ us) ≡ false
      → mem q us ≡ false
      → Chain n' p' a (us ++ pos ∷ []) q
  Chain-insert a us c d new apart =
      let tail = Chain-last n p a us q c in
      Chain-append n' p' a us pos [] q
        (Chain-relink n p n' p' a us q pos c d (λ x hx far. ground (arith, hn x))
          (λ x hx. ground (arith, hp x)) (ground (arith, hn (last a us))) (ground (arith, hp pos)))
        (ground (arith, hn pos, mem-last a us), ground (arith, hp q))

  -- Chains elsewhere stay.
  pub Chain-insert_frame :
      (a : ℕ) (vs : List ℕ) (b : ℕ)
      → Chain n p a vs b
      → mem pos (a ∷ vs) ≡ false
      → mem (p q) (a ∷ vs) ≡ false
      → mem pos (b ∷ vs) ≡ false
      → mem q (b ∷ vs) ≡ false
      → Chain n' p' a vs b
  Chain-insert_frame a vs b c n1 n2 n3 n4 =
      Chain-frame n p n' p' a vs b c (λ x hx. ground (arith, hn x)) (λ x hx. ground (arith, hp x))

-- `pos` is linked out.
module _ (n p n' p' : ℕ → ℕ) (pos : ℕ) (hn : (x : ℕ) → n' x ≡ (if x == p pos then n pos else n x))
    (hp : (x : ℕ) → p' x ≡ (if x == n pos then p pos else p x)) where
  -- Chains elsewhere stay.
  pub Chain-remove_frame :
      (a : ℕ) (vs : List ℕ) (b : ℕ)
      → Chain n p a vs b
      → mem (p pos) (a ∷ vs) ≡ false
      → mem (n pos) (b ∷ vs) ≡ false
      → Chain n' p' a vs b
  Chain-remove_frame a vs b c n1 n2 =
      Chain-frame n p n' p' a vs b c (λ x hx. ground (arith, hn x)) (λ x hx. ground (arith, hp x))

  -- The chain to `pos` goes on to what followed it.
  pub Chain-bypass :
      (a : ℕ) (us : List ℕ)
      → Chain n p a us pos
      → Distinct (a ∷ us)
      → mem (n pos) us ≡ false
      → Chain n' p' a us (n pos)
  Chain-bypass a us c d apart =
      let tail = Chain-last n p a us pos c in
      Chain-relink n p n' p' a us pos (n pos) c d (λ x hx far. ground (arith, hn x))
        (λ x hx. ground (arith, hp x)) (ground (arith, hn (last a us))) (ground (arith, hp (n pos)))

  -- The two chains at `pos` are joined past it.
  pub Chain-remove :
      (a : ℕ) (us vs : List ℕ) (b : ℕ)
      → Chain n p a us pos
      → Chain n p pos vs b
      → Distinct (a ∷ us ++ pos ∷ vs)
      → mem b (us ++ pos ∷ vs) ≡ false
      → Chain n' p' a (us ++ vs) b
  Chain-remove a us [] b c d apart out = rw append-nil (
      subst (Chain n' p' a us) d.0 (
        Chain-bypass a us c (Distinct-append_left (a ∷ us) (pos ∷ []) apart)
          (ground (arith, mem-append b us (pos ∷ [])))))
  Chain-remove a us (v ∷ vs) b c d apart out =
      let ends = Distinct-append_right (a ∷ us) (pos ∷ v ∷ vs) apart in
      let tail = Chain-last n p a us pos c in
      let far = Distinct-apart (last a us) (a ∷ us) (pos ∷ v ∷ vs) apart (mem-last a us) in
      Chain-append n' p' a us v vs b
        (subst (Chain n' p' a us) d.0 (
          Chain-bypass a us c (Distinct-append_left (a ∷ us) (pos ∷ v ∷ vs) apart) (
            ground (arith, Distinct-apart v (a ∷ us) (pos ∷ v ∷ vs) apart, Bool-cases (mem v us)))))
        (Chain-remove_frame v vs b d.2 (ground arith)
          (ground (arith, mem-append b us (pos ∷ v ∷ vs))))
