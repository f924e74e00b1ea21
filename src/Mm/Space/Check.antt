-- ===== src/Mm/Space/Check.antt =====
-- What `user_mem_check` guarantees of a range of user memory.
use mathlib.Core.Path.{subst}
use nku_os.Prelude.{
  ℕ, zero, suc, ◌+◌, ◌-◌, ◌^◌, ◌≤◌, ◌<◌, ◌≡◌, ◌⊎◌, ◌∙◌, inl, inr, refl, Bool, true, false, Option,
  none, some, List, arith, if◌then◌else◌, Bool-cases, ltb,
}
use nku_os.Mm.Vma.{Vma, MmStruct, contains, find_vma}
use nku_os.Mm.Vma.Lookup.{In, IsMm, Found, find_vma_lem}
use nku_os.Mm.Space.{
  vm_read, vm_write, has_flag, permits, user_mem_found, user_mem_from, user_mem_check, user_access,
  end_of,
}

-- An area of the list holds the address and has the flag for the access.
abbrev pub Allowed : List Vma → (write : Bool) → ℕ → Type 0
Allowed xs write a =
    (v : Vma) × In v xs
    × (contains v a ≡ true)
    × (has_flag v (if write then vm_write else vm_read) ≡ true)

-- No area holds the address, or the one that does forbids the access.
abbrev pub Forbidden : List Vma → (write : Bool) → ℕ → Type 0
Forbidden xs write a =
    ((v : Vma) → In v xs → contains v a ≡ false)
    ⊎ ((v : Vma) × In v xs × (contains v a ≡ true) × (permits v a write ≡ false))

-- The meaning of the answer for the addresses from `start` on, below `end`.
abbrev pub Checked : List Vma → (start end : ℕ) → (write answer : Bool) → Type 0
Checked xs start end write true = (a : ℕ) → start ≤ a → a < end → Allowed xs write a
Checked xs start end write false = (a : ℕ) × (start ≤ a) × (a < end) × Forbidden xs write a

-- The check ends with an answer, and leaves the areas as they are.
abbrev pub Answers : MmStruct → (start end : ℕ) → (write : Bool) → Option (Bool × MmStruct) → Type 0
Answers mm start end write r =
    (b : Bool) × (mm' : MmStruct) × (r ≡ some (b, mm'))
    × IsMm mm'
    × (mm'.mmap_list ≡ mm.mmap_list)
    × Checked mm.mmap_list start end write b

permits-flag :
    (v : Vma) (a : ℕ) (write : Bool)
    → permits v a write ≡ true
    → has_flag v (if write then vm_write else vm_read) ≡ true
permits-flag v a write h = ground (arith, h)

Checked-extend :
    (xs : List Vma) (v : Vma) (start end : ℕ) (write b : Bool)
    → In v xs
    → contains v start ≡ true
    → permits v start write ≡ true
    → Checked xs v.vm_end end write b
    → Checked xs start end write b
Checked-extend xs v start end write true i c p h = λ a ge lt. elim (Bool-cases (ltb a v.vm_end)) [
  | inl inside ↦ (v, i, ground (arith, inside, c, ge), permits-flag v start write p)
  | inr beyond ↦ h a (ground (arith, beyond)) lt
]
Checked-extend xs v start end write false i c p (a, ge, lt, f) = (a, ground (arith, ge, c), lt, f)

module _ (mm mm' : MmStruct) (start end : ℕ) (write : Bool) (wf : IsMm mm')
    (same : mm'.mmap_list ≡ mm.mmap_list) (lt : start < end) where
  user_mem_found-Answers :
      (r : Option Vma) (next : Vma → Option (Bool × MmStruct))
      → Found mm.mmap_list start r
      → ((v : Vma) → start < v.vm_end → Answers mm' v.vm_end end write (next v))
      → Answers mm start end write (user_mem_found r start write next mm')
  user_mem_found-Answers none next f k =
      (false, mm', refl, wf, same, (start, omega arith, lt, inl f))
  user_mem_found-Answers (some v) next f k = elim (Bool-cases (permits v start write)) [
    | inl p ↦
        let (b, mm'', run, wf', same', c) = k v (ground (arith, f.1)) in
        let c' : Checked mm.mmap_list v.vm_end end write b =
          subst (λ xs. Checked xs v.vm_end end write b) same c in
        (
          b,
          mm'',
          rw p run,
          wf',
          same' ∙ same,
          Checked-extend mm.mmap_list v start end write b f.0 f.1 p c',
        )
    | inr p ↦ (false, mm', rw p refl, wf, same, (start, omega arith, lt, inr (v, f.0, f.1, p)))
  ]

user_mem_from-Answers :
    (fuel start end : ℕ) (write : Bool) (mm : MmStruct)
    → IsMm mm
    → end - start < fuel
    → Answers mm start end write (user_mem_from fuel start end write mm)
unfolding user_mem_from
user_mem_from-Answers zero start end write mm h enough = absurd (omega (arith, enough))
user_mem_from-Answers (suc fuel) start end write mm h enough = elim (Bool-cases (ltb start end)) [
  | inl lt ↦
      let (e, f, wf, same) = find_vma_lem mm start h in
      let mm' = (find_vma mm start).1 in
      rw lt (
        user_mem_found-Answers mm mm' start end write wf same (ground (arith, lt))
          (find_vma mm start).0 (λ v. user_mem_from fuel v.vm_end end write mm') f
          (λ v past.
            user_mem_from-Answers fuel v.vm_end end write mm' wf
              (ground (arith, past, lt, enough))))
  | inr done ↦ rw done (true, mm, refl, h, refl, λ a ge lt. absurd (ground (arith, done, ge, lt)))
]

-- The answer of `user_mem_check` on an address space: the range lies in the user's part and each address of it is
-- allowed, or one of the two fails. The sum of 64 bits has not wrapped around where the answer is yes.
abbrev pub Permitted : MmStruct → (addr len : ℕ) → (write answer : Bool) → Type 0
Permitted mm addr len write true =
    (0x200000 ≤ addr)
    × (addr < addr + len)
    × (addr + len ≤ 0x80000000)
    × Checked mm.mmap_list addr (addr + len) write true
Permitted mm addr len write false =
    (user_access addr (end_of addr len) ≡ false)
    ⊎ Checked mm.mmap_list addr (addr + len) write false

no_wrap :
    (addr len : ℕ)
    → addr < 2 ^ 64
    → len < 2 ^ 64
    → user_access addr (end_of addr len) ≡ true
    → (end_of addr len ≡ addr + len)
      × (0x200000 ≤ addr)
      × (addr < addr + len)
      × (addr + len ≤ 0x80000000)
no_wrap addr len small_addr small h =
    let low : 0x200000 ≤ addr = ground (arith, h) in
    let order : addr < end_of addr len = ground (arith, h) in
    let high : end_of addr len ≤ 0x80000000 = ground (arith, h) in
    let same : end_of addr len ≡ addr + len = omega (arith, order, small_addr, small) in
    (same, low, omega (arith, order, same), omega (arith, high, same))

Checked-Permitted :
    (mm : MmStruct) (addr len : ℕ) (write b : Bool)
    → (0x200000 ≤ addr) × (addr < addr + len) × (addr + len ≤ 0x80000000)
    → Checked mm.mmap_list addr (addr + len) write b
    → Permitted mm addr len write b
Checked-Permitted mm addr len write true (low, order, high) c = (low, order, high, c)
Checked-Permitted mm addr len write false bounds c = inr c

answer :
    (fuel : ℕ) (mm mm' : MmStruct) (addr len : ℕ) (write b : Bool)
    → user_access addr (end_of addr len) ≡ true
    → end_of addr len ≡ addr + len
    → user_mem_from fuel addr (addr + len) write mm ≡ some (b, mm')
    → user_mem_check fuel (some mm) addr len write ≡ some (b, some mm')
unfolding user_mem_check
answer fuel mm mm' addr len write b user same run = rw (user, same, run) refl

refused :
    (fuel : ℕ) (mm : MmStruct) (addr len : ℕ) (write : Bool)
    → user_access addr (end_of addr len) ≡ false
    → user_mem_check fuel (some mm) addr len write ≡ some (false, some mm)
unfolding user_mem_check
refused fuel mm addr len write other = rw other refl

-- With the areas in order, and with fuel for each byte of the range, `user_mem_check` ends. A yes means that the range lies
-- in the user's part of the address space without wrapping around, and that each of its addresses is in
-- an area with the flag for the access; a no means that the range leaves the user's part, or that one of
-- its addresses is in no area or in one that forbids the access. The areas stay as they are.
pub user_mem_check_lem :
    (mm : MmStruct) (addr len : ℕ) (write : Bool)
    → IsMm mm
    → addr < 2 ^ 64
    → len < 2 ^ 64
    → (b : Bool) × (mm' : MmStruct) × (user_mem_check (suc len) (some mm) addr len write
        ≡ some (b, some mm'))
      × IsMm mm'
      × (mm'.mmap_list ≡ mm.mmap_list)
      × Permitted mm addr len write b
user_mem_check_lem mm addr len write h small_addr small =
    elim (Bool-cases (user_access addr (end_of addr len))) [
      | inl user ↦
          let (same, low, order, high) = no_wrap addr len small_addr small user in
          let (b, mm', run, wf, areas, c) =
            user_mem_from-Answers (suc len) addr (addr + len) write mm h (omega arith) in
          (
            b,
            mm',
            answer (suc len) mm mm' addr len write b user same run,
            wf,
            areas,
            Checked-Permitted mm addr len write b (low, order, high) c,
          )
      | inr other ↦ (false, mm, refused (suc len) mm addr len write other, h, refl, inl other)
    ]
