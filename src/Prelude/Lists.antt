-- ===== src/Prelude/Lists.antt =====
-- Lists of numbers by how often each number occurs, and lists by native indices.
use Prim.Native.Nat.{ℕ, zero, suc, ◌+◌, ◌≤◌}
use mathlib.Core.Path.{◌≡◌, refl}
use mathlib.Core.Option.{Option, none, some}
use mathlib.Core.List.{List, [], ◌∷◌, ◌++◌}
use native.Mathlib.Omega.{arith}
use nku_os.Prelude.Tests.{◌==◌, if◌then◌else◌}

module _ {ℓ} {A : Type ℓ} where
  abbrev pub length : List A → ℕ
  length [] = 0
  length (x ∷ xs) = suc (length xs)

  abbrev pub get_elem? : List A → ℕ → Option A
  get_elem? [] i = none
  get_elem? (x ∷ xs) zero = some x
  get_elem? (x ∷ xs) (suc i) = get_elem? xs i

-- How often a number occurs in a list.
abbrev pub count : ℕ → List ℕ → ℕ
count n [] = 0
count n (x ∷ xs) = if n == x then suc (count n xs) else count n xs

pub count-append : (n : ℕ) (xs ys : List ℕ) → count n (xs ++ ys) ≡ count n xs + count n ys
count-append n [] ys = omega arith
count-append n (x ∷ xs) ys = ground (arith, count-append n xs ys)

abbrev pub Distinct : List ℕ → Type 0
Distinct xs = (n : ℕ) → count n xs ≤ 1

-- A map from numbers changed at one of them.
abbrev pub update {ℓ} : {A : Type ℓ} → (ℕ → A) → ℕ → A → ℕ → A
update f a v n = if n == a then v else f n

pub length-append {ℓ} : {A : Type ℓ} (xs ys : List A) → length (xs ++ ys) ≡ length xs + length ys
length-append [] ys = omega arith
length-append (x ∷ xs) ys = omega (arith, length-append xs ys)

-- Without every occurrence of a number.
abbrev pub remove : ℕ → List ℕ → List ℕ
remove a [] = []
remove a (x ∷ xs) = if a == x then remove a xs else x ∷ remove a xs

pub count-remove :
    (n a : ℕ) (xs : List ℕ) → count n (remove a xs) ≡ (if n == a then 0 else count n xs)
count-remove n a [] = ground arith
count-remove n a (x ∷ xs) = ground (arith, count-remove n a xs)

pub remove-none : (a : ℕ) (xs : List ℕ) → count a xs ≡ 0 → remove a xs ≡ xs
remove-none a [] h = refl
remove-none a (x ∷ xs) h = ground (arith, h, remove-none a xs)
