-- ===== src/Process/Resources/Counts.antt =====
-- The reference counts are the numbers of processes that hold a structure.
use nku_os.Prelude.{
  ℕ, suc, ◌+◌, ◌-◌, ◌%◌, ◌^◌, ◌≤◌, ◌<◌, ◌≡◌, ap, refl, true, false, Option, none, some, List, [],
  ◌∷◌, ◌==◌, if◌then◌else◌, arith, count, length, Bool-cases, inl, inr, update, remove, remove-none,
  count-remove,
}
use nku_os.Process.Tree.{points_to}
use nku_os.Process.Resources.{Resources, put_files, release}

-- How many of the processes have `a` in a field.
abbrev pub holders : (ℕ → Option ℕ) → ℕ → List ℕ → ℕ
holders field a [] = 0
holders field a (p ∷ ps) =
    if points_to (field p) a then suc (holders field a ps) else holders field a ps

-- The count of every structure that is held is the number of its holders.
abbrev pub Counted : (ℕ → ℕ) → (ℕ → Option ℕ) → List ℕ → Type 0
Counted counts field ps = (a : ℕ) → 1 ≤ holders field a ps → counts a ≡ holders field a ps

pub record Counts (r : Resources) (ps : List ℕ) : Type 0 where
  pub mms : Counted r.mm_count r.mm ps
  pub files : Counted r.files_count r.filesp ps

pub holders-le-length : (f : ℕ → Option ℕ) (a : ℕ) (ps : List ℕ) → holders f a ps ≤ length ps
holders-le-length f a [] = omega arith
holders-le-length f a (p ∷ ps) = ground (arith, holders-le-length f a ps)

pub holders-update :
    (f : ℕ → Option ℕ) (p : ℕ) (v : Option ℕ) (a : ℕ) (ps : List ℕ)
    → count p ps ≡ 0
    → holders (update f p v) a ps ≡ holders f a ps
holders-update f p v a [] h = refl
holders-update f p v a (q ∷ ps) h = ground (arith, h, holders-update f p v a ps)

pub holders-remove :
    (f : ℕ → Option ℕ) (p a : ℕ) (ps : List ℕ)
    → count p ps ≡ 1
    → holders f a ps ≡ holders f a (remove p ps) + (if points_to (f p) a then 1 else 0)
holders-remove f p a [] h = absurd (omega (arith, h))
holders-remove f p a (q ∷ ps) h = elim (Bool-cases (p == q)) [
  | inl e ↦
      let same : p ≡ q = ground (arith, e) in
      let alone : count p ps ≡ 0 = ground (arith, h, e) in
      let field : f p ≡ f q = ap f same in rw (e, remove-none p ps alone, field) (ground arith)
  | inr ne ↦ ground (arith, ne, holders-remove f p a ps (ground (arith, h, ne)))
]

-- The fields behind `put_files`.
abbrev pub Put : (p f n : ℕ) → Resources → Resources → Type 0
Put p f n r s =
    (s.mm ≡ r.mm)
    × (s.mm_count ≡ r.mm_count)
    × (s.filesp ≡ r.filesp)
    × (s.files_count ≡ update r.files_count f (n - 1))
    × (s.dead_mms ≡ r.dead_mms)
    × (s.dead_files ≡ (if n == 1 then f ∷ r.dead_files else r.dead_files))

pub put_files-Put :
    (r : Resources) (p f n : ℕ)
    → r.filesp p ≡ some f
    → r.files_count f ≡ n
    → 1 ≤ n
    → n < 2 ^ 32
    → Put p f n r (put_files p r)
unfolding put_files
put_files-Put r p f n has e low high =
    let down : (n + 2 ^ 32 - 1) % 2 ^ 32 ≡ n - 1 = omega (arith, low, high) in
    elim (Bool-cases (n == 1)) [
      | inl last ↦
          let zero_left : (n - 1 == 0) ≡ true = ground (arith, last) in
          rw (has, e, down, zero_left, last) (refl, refl, refl, refl, refl, refl)
      | inr more ↦
          let some_left : (n - 1 == 0) ≡ false = ground (arith, more, low) in
          rw (has, e, down, some_left, more) (refl, refl, refl, refl, refl, refl)
    ]

abbrev Released : (p m f n k : ℕ) → Resources → Resources → Type 0
Released p m f n k r s =
    (s.mm ≡ update r.mm p none)
    × (s.mm_count ≡ update r.mm_count m (n - 1))
    × (s.filesp ≡ r.filesp)
    × (s.files_count ≡ update r.files_count f (k - 1))
    × (s.dead_mms ≡ (if n == 1 then m ∷ r.dead_mms else r.dead_mms))
    × (s.dead_files ≡ (if k == 1 then f ∷ r.dead_files else r.dead_files))

release-Released :
    (r : Resources) (p m f n k : ℕ)
    → r.mm p ≡ some m
    → r.filesp p ≡ some f
    → r.mm_count m ≡ n
    → r.files_count f ≡ k
    → 1 ≤ n
    → n < 2 ^ 32
    → 1 ≤ k
    → k < 2 ^ 32
    → Released p m f n k r (release p r)
unfolding release put_files
release-Released r p m f n k has has_files e e' low high low' high' =
    let down : (n + 2 ^ 32 - 1) % 2 ^ 32 ≡ n - 1 = omega (arith, low, high) in
    let r1 = record r { mm_count = update r.mm_count m (n - 1) } in
    elim (Bool-cases (n == 1)) [
      | inl last ↦
          let zero_left : (n - 1 == 0) ≡ true = ground (arith, last) in
          rw (has, e, down, zero_left, last)
            (put_files-Put (record r1 { dead_mms = m ∷ r.dead_mms; mm = update r.mm p none }) p f k
              has_files e' low' high')
      | inr more ↦
          let some_left : (n - 1 == 0) ≡ false = ground (arith, more, low) in
          rw (has, e, down, some_left, more)
            (put_files-Put (record r1 { mm = update r.mm p none }) p f k has_files e' low' high')
    ]

-- The exit of a process with memory keeps the counts, for the processes that are left. Its memory is given back exactly
-- if no other process has it, and so are its files.
pub release-Counts :
    (r : Resources) (ps : List ℕ) (p m f : ℕ)
    → Counts r ps
    → count p ps ≡ 1
    → length ps < 2 ^ 32
    → r.mm p ≡ some m
    → r.filesp p ≡ some f
    → Counts (release p r) (remove p ps)
      × ((release p r).dead_mms ≡ (if holders r.mm m ps == 1 then m ∷ r.dead_mms else r.dead_mms))
      × ((release p r).dead_files
          ≡ (if holders r.filesp f ps == 1 then f ∷ r.dead_files else r.dead_files))
release-Counts r ps p m f v once few has_mm has_files =
    let n = holders r.mm m ps in
    let k = holders r.filesp f ps in
    let gone : count p (remove p ps) ≡ 0 = ground (arith, count-remove p p ps) in
    let left_mm : (a : ℕ)
        → holders r.mm a ps ≡ holders r.mm a (remove p ps) + (if a == m then 1 else 0) =
      λ a. rw has_mm at (holders-remove r.mm p a ps once) in
    let left_files : (a : ℕ)
        → holders r.filesp a ps ≡ holders r.filesp a (remove p ps) + (if a == f then 1 else 0) =
      λ a. rw has_files at (holders-remove r.filesp p a ps once) in
    let n_pos : 1 ≤ n = ground (arith, left_mm m) in
    let k_pos : 1 ≤ k = ground (arith, left_files f) in
    let (mm', mm_count', filesp', files_count', dead_mms', dead_files') =
      release-Released r p m f n k has_mm has_files (v.mms m n_pos) (v.files f k_pos) n_pos
        (omega (arith, few, holders-le-length r.mm m ps)) k_pos
        (omega (arith, few, holders-le-length r.filesp f ps)) in
    (
      record {
        mms =
            rw (mm', mm_count')
              (λ a.
                rw (holders-update r.mm p none a (remove p ps) gone)
                  (λ h. ground (arith, h, left_mm a, v.mms a, v.mms m n_pos)));
        files = rw (filesp', files_count') (λ a h. ground (arith, h, left_files a, v.files a));
      },
      dead_mms',
      dead_files',
    )

-- The exit of a kernel thread leaves a count of its files behind that stands for no process.
pub release-leaks :
    (r : Resources) (ps : List ℕ) (p f : ℕ)
    → Counts r ps
    → count p ps ≡ 1
    → r.mm p ≡ none
    → r.filesp p ≡ some f
    → (release p r).files_count f ≡ holders (release p r).filesp f (remove p ps) + 1
unfolding release
release-leaks r ps p f v once no_mm has_files =
    let left = rw has_files at (holders-remove r.filesp p f ps once) in
    rw no_mm (ground (arith, left, v.files f))
