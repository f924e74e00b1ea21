-- ===== src/Mm/Space/Dup.antt =====
-- `dup_mmap` copies the areas one by one, from the last to the first.
use mathlib.Core.Path.{subst}
use nku_os.Prelude.{
  ℕ, zero, suc, ◌+◌, ◌≡◌, ◌∙◌, inl, inr, refl, sym, ap, Bool, true, false, Option, some, List, [],
  ◌∷◌, ◌++◌, append_assoc, arith, if◌then◌else◌, Bool-cases, ltb, lt→ltb, leb, ◌%◌, ◌^◌,
}
use nku_os.Mm.Vma.{Vma, MmStruct, check_vma_overlap, insert_vma_walk, insert_vma_struct}
use nku_os.Mm.Vma.Lookup.{IsMm, Ordered}
use nku_os.Errors.{e_no_mem}
use nku_os.Mm.Space.{dup_areas, dup_mmap, rev_onto}

-- An area below all others goes to the front.
insert_front :
    (to : MmStruct) (lo : ℕ) (v : Vma) (ys : List Vma)
    → Ordered lo (v ∷ ys)
    → to.mmap_list ≡ ys
    → insert_vma_struct to v
      ≡ some (record to { mmap_list = v ∷ ys; map_count = (to.map_count + 1) % 2 ^ 32 })
unfolding insert_vma_struct insert_vma_walk check_vma_overlap
insert_front to lo v [] o e = rw (e, lt→ltb v.vm_start v.vm_end o.1) refl
insert_front to lo v (y ∷ ys) o e =
    let before : ltb v.vm_start y.vm_start ≡ true = ground (arith, o.1, o.2.0) in
    let apart : leb v.vm_end y.vm_start ≡ true = ground (arith, o.2.0) in
    rw (e, lt→ltb v.vm_start v.vm_end o.1, before, apart, lt→ltb y.vm_start y.vm_end o.2.1) refl

Ordered-tail : (xs ys : List Vma) → Ordered 0 (rev_onto xs ys) → (lo : ℕ) × Ordered lo ys
Ordered-tail [] ys o = (0, o)
Ordered-tail (x ∷ xs) ys o = let (lo, p) = Ordered-tail xs (x ∷ ys) o in (x.vm_end, p.2)

rev_onto-append : (xs ys : List Vma) → rev_onto xs ys ≡ rev_onto xs [] ++ ys
rev_onto-append [] ys = refl
rev_onto-append (x ∷ xs) ys =
    rev_onto-append xs (x ∷ ys)
    ∙ (sym (append_assoc (rev_onto xs []) (x ∷ []) ys)
        ∙ ap (λ zs. zs ++ ys) (sym (rev_onto-append xs (x ∷ []))))

rev_onto-twice : (xs ys : List Vma) → rev_onto (rev_onto xs ys) [] ≡ rev_onto ys xs
rev_onto-twice [] ys = refl
rev_onto-twice (x ∷ xs) ys = rev_onto-twice xs (x ∷ ys)

-- The first areas of `xs` are missing in the copy.
abbrev pub Suffix : List Vma → List Vma → Type 0
Suffix ys xs = (zs : List Vma) × (xs ≡ zs ++ ys)

-- The outcome: all areas are copied, or the memory ran out, after some of them.
abbrev pub Copied : List Vma → ℕ → MmStruct → Type 0
Copied xs zero to = to.mmap_list ≡ xs
Copied xs (suc n) to = (suc n ≡ e_no_mem) × Suffix to.mmap_list xs

module _ {M : Type 0} (kmalloc : M → Bool × M)
    (copy_range : (vm_start vm_end : ℕ) → M → Bool × M) where
  abbrev Copies : List Vma → Option (ℕ × MmStruct × M) → Type 0
  Copies xs r = (ret : ℕ) × (to : MmStruct) × (m : M) × (r ≡ some (ret, to, m)) × Copied xs ret to

  -- One area, given what is done with the others.
  dup_one :
      (xs ys : List Vma) (v : Vma) (to : MmStruct) (copied : Bool) (m : M)
      (k : MmStruct → Option (ℕ × MmStruct × M))
      → Copies (rev_onto xs (v ∷ ys)) (k to)
      → to.mmap_list ≡ v ∷ ys
      → Copies (rev_onto xs (v ∷ ys)) (if copied then k to else some (e_no_mem, to, m))
  dup_one xs ys v to true m k c e = c
  dup_one xs ys v to false m k c e =
      (e_no_mem, to, m, refl, (refl, (rev_onto xs [], rw e (rev_onto-append xs (v ∷ ys)))))

  dup_areas-Copies :
      (xs ys : List Vma) (to : MmStruct) (m : M)
      → Ordered 0 (rev_onto xs ys)
      → to.mmap_list ≡ ys
      → Copies (rev_onto xs ys) (dup_areas kmalloc copy_range xs to m)
  unfolding dup_areas
  dup_areas-Copies [] ys to m o e = (0, to, m, refl, e)
  dup_areas-Copies (v ∷ xs) ys to m o e =
      let (lo, p) = Ordered-tail xs (v ∷ ys) o in
      let to' : MmStruct = record to {
        mmap_list = v ∷ ys;
        map_count = (to.map_count + 1) % 2 ^ 32;
      } in
      let m1 = (kmalloc m).1 in
      let m2 = (copy_range v.vm_start v.vm_end m1).1 in
      elim (Bool-cases (kmalloc m).0) [
        | inl mem ↦
            rw (mem, insert_front to lo v ys p e)
              (dup_one xs ys v to' (copy_range v.vm_start v.vm_end m1).0 m2
                (λ t. dup_areas kmalloc copy_range xs t m2)
                (dup_areas-Copies xs (v ∷ ys) to' m2 o refl) refl)
        | inr out ↦ rw out (
          e_no_mem,
          to,
          m1,
          refl,
          (
            refl,
            (
              rev_onto xs [] ++ v ∷ [],
              rw (e, append_assoc (rev_onto xs []) (v ∷ []) ys) (rev_onto-append xs (v ∷ ys)),
            ),
          ),
        )
      ]

  -- `dup_mmap` into an empty address space fails no assertion. If it returns 0, the copy has the same areas in the same
  -- order; otherwise it returns `-E_NO_MEM`, and the copy lacks some of the first areas.
  pub dup_mmap-Copied :
      (to from : MmStruct) (m : M)
      → IsMm from
      → to.mmap_list ≡ []
      → (ret : ℕ) × (to' : MmStruct) × (m' : M) × (dup_mmap kmalloc copy_range to from m
          ≡ some (ret, to', m'))
        × Copied from.mmap_list ret to'
  unfolding dup_mmap
  dup_mmap-Copied to from m h empty =
      let back : rev_onto (rev_onto from.mmap_list []) [] ≡ from.mmap_list =
        rev_onto-twice from.mmap_list [] in
      let (ret, to', m', run, c) =
        dup_areas-Copies (rev_onto from.mmap_list []) [] to m (rw back h.ordered) empty in
      (ret, to', m', run, subst (λ xs. Copied xs ret to') back c)
