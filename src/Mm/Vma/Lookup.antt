-- ===== src/Mm/Vma/Lookup.antt =====
-- The cache of find_vma, and the order of the areas.
use mathlib.Core.Path.{subst}
use nku_os.Prelude.{
  ℕ, ◌≤◌, ◌<◌, ◌≡◌, ◌⊎◌, inl, inr, refl, sym, true, false, Option, none, some, List, [], ◌∷◌, arith,
  if◌then◌else◌, Bool-cases,
}
use nku_os.Mm.Vma.{Vma, MmStruct, contains, search_list, cached, remember, find_vma}

-- The areas lie in order from `lo` on, and none is empty.
abbrev pub Ordered : ℕ → List Vma → Type 0
Ordered lo [] = Unit {0}
Ordered lo (x ∷ xs) = (lo ≤ x.vm_start) × (x.vm_start < x.vm_end) × Ordered x.vm_end xs

abbrev pub In : Vma → List Vma → Type 0
In v [] = ⊥
In v (x ∷ xs) = (v ≡ x) ⊎ In v xs

abbrev pub CacheIn : Option Vma → List Vma → Type 0
CacheIn none xs = Unit {0}
CacheIn (some v) xs = In v xs

-- The areas are in order, and the cached one is in the list.
pub record IsMm (mm : MmStruct) : Type 0 where
  pub ordered : Ordered 0 mm.mmap_list
  pub cache : CacheIn mm.mmap_cache mm.mmap_list

In-bound : (lo : ℕ) (xs : List Vma) (v : Vma) → Ordered lo xs → In v xs → lo ≤ v.vm_start
In-bound lo [] v o i = elim i [ ]
In-bound lo (x ∷ xs) v o (inl e) = rw e o.0
In-bound lo (x ∷ xs) v o (inr i) = omega (arith, In-bound x.vm_end xs v o.2 i, o.0, o.1)

search_list-In :
    (lo : ℕ) (xs : List Vma) (v : Vma) (addr : ℕ)
    → Ordered lo xs
    → In v xs
    → contains v addr ≡ true
    → search_list xs addr ≡ some v
unfolding search_list
search_list-In lo [] v addr o i h = elim i [ ]
search_list-In lo (x ∷ xs) v addr o (inl e) h = rw (sym e, h) refl
search_list-In lo (x ∷ xs) v addr o (inr i) h =
    let b = In-bound x.vm_end xs v o.2 i in
    let miss : contains x addr ≡ false = ground (arith, b, h) in
    rw miss (search_list-In x.vm_end xs v addr o.2 i h)

-- An answer for an address: an area of the list that holds it, or none if no area does.
abbrev pub Found : List Vma → ℕ → Option Vma → Type 0
Found xs addr none = (v : Vma) → In v xs → contains v addr ≡ false
Found xs addr (some v) = In v xs × (contains v addr ≡ true)

Found-cons :
    (x : Vma) (xs : List Vma) (addr : ℕ) (r : Option Vma)
    → contains x addr ≡ false
    → Found xs addr r
    → Found (x ∷ xs) addr r
Found-cons x xs addr none miss h = λ v i. elim i [ inl e ↦ rw e miss | inr j ↦ h v j ]
Found-cons x xs addr (some v) miss h = (inr h.0, h.1)

search_list-Found : (xs : List Vma) (addr : ℕ) → Found xs addr (search_list xs addr)
unfolding search_list
search_list-Found [] addr = λ v i. elim i [ ]
search_list-Found (x ∷ xs) addr = elim (Bool-cases (contains x addr)) [
  | inl hit ↦ rw (hit, Found) (inl refl, hit)
  | inr miss ↦ rw miss (Found-cons x xs addr _ miss (search_list-Found xs addr))
]

cache_hit :
    (cache : Option Vma) (xs : List Vma) (addr : ℕ)
    → Ordered 0 xs
    → CacheIn cache xs
    → cached cache addr ≡ true
    → cache ≡ search_list xs addr
cache_hit none xs addr o i h = absurd (ground (arith, h))
cache_hit (some v) xs addr o i h = sym (search_list-In 0 xs v addr o i h)

remember-IsMm :
    (r : Option Vma) (mm : MmStruct) (addr : ℕ)
    → IsMm mm
    → Found mm.mmap_list addr r
    → IsMm (remember r mm) × ((remember r mm).mmap_list ≡ mm.mmap_list)
remember-IsMm none mm addr h f = (h, refl)
remember-IsMm (some v) mm addr h f = (record { ordered = h.ordered; cache = f.0 }, refl)

answer :
    (mm : MmStruct) (addr : ℕ)
    → IsMm mm
    → (if cached mm.mmap_cache addr then mm.mmap_cache else search_list mm.mmap_list addr)
      ≡ search_list mm.mmap_list addr
answer mm addr h = elim (Bool-cases (cached mm.mmap_cache addr)) [
  | inl hit ↦ rw hit (cache_hit mm.mmap_cache mm.mmap_list addr h.ordered h.cache hit)
  | inr miss ↦ rw miss refl
]

-- The cache changes no answer: `find_vma` gives what a search of the whole list gives, an area that
-- holds the address, or NULL only if no area of the list does. The areas stay as they are, and
-- the cached area is one of the list again.
pub find_vma_lem :
    (mm : MmStruct) (addr : ℕ)
    → IsMm mm
    → let (vma, mm') = find_vma mm addr in
      (vma ≡ search_list mm.mmap_list addr)
      × Found mm.mmap_list addr vma
      × IsMm mm'
      × (mm'.mmap_list ≡ mm.mmap_list)
unfolding find_vma
find_vma_lem mm addr h =
    let e = answer mm addr h in
    let f : Found mm.mmap_list addr
        (if cached mm.mmap_cache addr then mm.mmap_cache else search_list mm.mmap_list addr) =
      subst (λ r. Found mm.mmap_list addr r) (sym e) (search_list-Found mm.mmap_list addr) in
    let k = remember-IsMm _ mm addr h f in (e, f, k.0, k.1)
