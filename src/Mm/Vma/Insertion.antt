-- ===== src/Mm/Vma/Insertion.antt =====
-- insert_vma_struct keeps the areas in order.
use nku_os.Prelude.{
  ℕ, ◌+◌, ◌%◌, ◌^◌, ◌≤◌, ◌<◌, ◌≡◌, ◌⊎◌, ◌↔◌, inl, inr, refl, Option, none, some, List, [], ◌∷◌,
  arith, ltb, lt→ltb, Bool-cases,
}
use nku_os.Mm.Vma.{Vma, MmStruct, check_vma_overlap, check_prev, insert_vma_walk, insert_vma_struct}
use nku_os.Mm.Vma.Lookup.{Ordered, In, CacheIn, IsMm}

abbrev pub Disjoint : Vma → List Vma → Type 0
Disjoint v [] = Unit {0}
Disjoint v (x ∷ xs) = ((v.vm_end ≤ x.vm_start) ⊎ (x.vm_end ≤ v.vm_start)) × Disjoint v xs

-- The area passed last ends at `lo` at the latest.
abbrev Passed : ℕ → Option Vma → Type 0
Passed lo none = Unit {0}
Passed lo (some p) = (p.vm_start < p.vm_end) × (p.vm_end ≤ lo)

overlap_none :
    (p v : Vma)
    → p.vm_start < p.vm_end
    → p.vm_end ≤ v.vm_start
    → v.vm_start < v.vm_end
    → check_vma_overlap p v ≡ some tt
unfolding check_vma_overlap
overlap_none p v a b c = ground (arith, a, b, c)

prev_none :
    (lo : ℕ) (p : Option Vma) (v : Vma)
    → Passed lo p
    → lo ≤ v.vm_start
    → v.vm_start < v.vm_end
    → check_prev p v ≡ some tt
prev_none lo none v h le pos = refl
prev_none lo (some p) v h le pos = overlap_none p v h.0 (omega (arith, h.1, le)) pos

abbrev pub Inserted : ℕ → Vma → List Vma → List Vma → Type 0
Inserted lo v xs ys = Ordered lo ys × ((u : Vma) → In u ys ↔ ((u ≡ v) ⊎ In u xs))

swap :
    (u v x : Vma) (rest ys : List Vma)
    → In u ys ↔ ((u ≡ v) ⊎ In u rest)
    → In u (x ∷ ys) ↔ ((u ≡ v) ⊎ In u (x ∷ rest))
swap u v x rest ys h = (go, back)
  where
    go : In u (x ∷ ys) → (u ≡ v) ⊎ In u (x ∷ rest)
    go (inl e) = inr (inl e)
    go (inr i) = elim (h.0 i) [ inl e ↦ inl e | inr j ↦ inr (inr j) ]

    back : (u ≡ v) ⊎ In u (x ∷ rest) → In u (x ∷ ys)
    back (inl e) = inr (h.1 (inl e))
    back (inr (inl e)) = inl e
    back (inr (inr j)) = inr (h.1 (inr j))

insert_vma_walk-Inserted :
    (lo : ℕ) (p : Option Vma) (v : Vma) (xs : List Vma)
    → Passed lo p
    → lo ≤ v.vm_start
    → v.vm_start < v.vm_end
    → Ordered lo xs
    → Disjoint v xs
    → (ys : List Vma) × (insert_vma_walk p v xs ≡ some ys) × Inserted lo v xs ys
unfolding insert_vma_walk
insert_vma_walk-Inserted lo p v [] h le pos o d =
    (v ∷ [], rw (prev_none lo p v h le pos) refl, ((le, pos, tt), λ u. (λ i. i, λ i. i)))
insert_vma_walk-Inserted lo p v (x ∷ rest) h le pos o d =
    elim (Bool-cases (ltb v.vm_start x.vm_start)) [
      | inl before ↦
          let b : v.vm_end ≤ x.vm_start = ground (arith, before, d.0, o.1) in
          (
            v ∷ x ∷ rest,
            rw (before, prev_none lo p v h le pos, overlap_none v x pos b o.1) refl,
            ((le, pos, (b, o.1, o.2)), λ u. (λ i. i, λ i. i)),
          )
      | inr behind ↦
          let b : x.vm_end ≤ v.vm_start = ground (arith, behind, d.0, pos) in
          let r =
            insert_vma_walk-Inserted x.vm_end (some x) v rest (o.1, omega arith) b pos o.2 d.1 in
          (x ∷ r.0, rw (behind, r.1) refl, ((o.0, o.1, r.2.0), λ u. swap u v x rest r.0 (r.2.1 u)))
    ]

CacheIn-more :
    (c : Option Vma) (xs ys : List Vma)
    → ((u : Vma) → In u xs → In u ys)
    → CacheIn c xs
    → CacheIn c ys
CacheIn-more none xs ys f h = tt
CacheIn-more (some v) xs ys f h = f v h

-- With the areas in order, `insert_vma_struct` of a non-empty area that overlaps none of them fails no
-- assertion; afterwards the areas are those and the new one, in order, and the cache is still right.
pub insert_vma_struct_lem :
    (mm : MmStruct) (v : Vma)
    → IsMm mm
    → v.vm_start < v.vm_end
    → Disjoint v mm.mmap_list
    → (mm' : MmStruct) × (insert_vma_struct mm v ≡ some mm')
      × IsMm mm'
      × ((u : Vma) → In u mm'.mmap_list ↔ ((u ≡ v) ⊎ In u mm.mmap_list))
      × (mm'.map_count ≡ (mm.map_count + 1) % 2 ^ 32)
unfolding insert_vma_struct
insert_vma_struct_lem mm v h pos d =
    let r = insert_vma_walk-Inserted 0 none v mm.mmap_list tt (omega arith) pos h.ordered d in
    let mm' = record mm { mmap_list = r.0; map_count = (mm.map_count + 1) % 2 ^ 32 } in
    (
      mm',
      rw (lt→ltb v.vm_start v.vm_end pos, r.1) refl,
      record {
        ordered = r.2.0;
        cache = CacheIn-more mm.mmap_cache mm.mmap_list r.0 (λ u i. (r.2.1 u).1 (inr i)) h.cache;
      },
      r.2.1,
      refl,
    )
