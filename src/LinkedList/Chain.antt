-- ===== src/LinkedList/Chain.antt =====
-- Chains of list nodes: what the pointers of libs/list.h stand for, and how chains are cut,
-- joined, framed and given another end.
use nku_os.Prelude.{ℕ, ◌<◌, ◌≡◌, ◌≢◌, List, [], ◌∷◌, ◌++◌, arith, count, Distinct}
use nku_os.LinkedList.{Links}

-- From `a` the pointers lead through `xs` to `b`, and back.
abbrev pub Chain : Links → ℕ → List ℕ → ℕ → Type 0
Chain l a [] b = (l.next a ≡ b) × (l.prev b ≡ a)
Chain l a (x ∷ xs) b = (l.next a ≡ x) × (l.prev x ≡ a) × Chain l x xs b

module _ (l : Links) where
  pub Chain-split :
      (a : ℕ) (xs : List ℕ) (m : ℕ) (ys : List ℕ) (b : ℕ)
      → Chain l a (xs ++ m ∷ ys) b
      → Chain l a xs m × Chain l m ys b
  Chain-split a [] m ys b c = ((c.0, c.1), c.2)
  Chain-split a (x ∷ xs) m ys b c = let (h, t) = Chain-split x xs m ys b c.2 in ((c.0, c.1, h), t)

  pub Chain-join :
      (a : ℕ) (xs : List ℕ) (m : ℕ) (ys : List ℕ) (b : ℕ)
      → Chain l a xs m
      → Chain l m ys b
      → Chain l a (xs ++ m ∷ ys) b
  Chain-join a [] m ys b c d = (c.0, c.1, d)
  Chain-join a (x ∷ xs) m ys b c d = (c.0, c.1, Chain-join x xs m ys b c.2 d)

  -- A chain survives any change that spares its own pointers.
  pub Chain-frame :
      (g : Links) (a : ℕ) (xs : List ℕ) (b : ℕ)
      → Chain l a xs b
      → ((n : ℕ) → 0 < count n (a ∷ xs) → g.next n ≡ l.next n)
      → ((n : ℕ) → 0 < count n (xs ++ b ∷ []) → g.prev n ≡ l.prev n)
      → Chain g a xs b
  Chain-frame g a [] b c fn fp = ground (arith, fn a, fp b)
  Chain-frame g a (x ∷ xs) b c fn fp = (
    ground (arith, fn a),
    ground (arith, fp x),
    Chain-frame g x xs b c.2 (λ n h. ground (arith, fn n, h)) (λ n h. ground (arith, fp n, h)),
  )

  pub last_mem : (a : ℕ) (xs : List ℕ) (b : ℕ) → Chain l a xs b → 0 < count (l.prev b) (a ∷ xs)
  last_mem a [] b c = ground arith
  last_mem a (x ∷ xs) b c = ground (arith, last_mem x xs b c.2)

  -- A chain to `b` becomes one to `c` when its last node is linked with `c`.
  pub Chain-retarget :
      (g : Links) (a : ℕ) (xs : List ℕ) (b c : ℕ)
      → Chain l a xs b
      → Distinct (a ∷ xs)
      → g.next (l.prev b) ≡ c
      → g.prev c ≡ l.prev b
      → ((n : ℕ) → 0 < count n (a ∷ xs) → n ≢ l.prev b → g.next n ≡ l.next n)
      → ((n : ℕ) → 0 < count n xs → g.prev n ≡ l.prev n)
      → Chain g a xs c
  Chain-retarget g a [] b c ch d e1 e2 fn fp = ground arith
  Chain-retarget g a (x ∷ xs) b c ch d e1 e2 fn fp = (
    ground (arith, fn a, last_mem x xs b ch.2, d a),
    ground (arith, fp x),
    Chain-retarget g x xs b c ch.2 (λ n. ground (arith, d n)) e1 e2 (λ n h. ground (arith, fn n, h))
        (λ n h. ground (arith, fp n, h)),
  )
