-- ===== src/Mm/FirstFit/Init.antt =====
-- default_init and default_init_memmap: the free list after the first range of pages.
use nku_os.Prelude.{ℕ, zero, suc, ◌+◌, ◌^◌, ◌≤◌, ◌<◌, ◌≡◌, refl, true, false, some, [], ◌∷◌, arith}
use nku_os.Mm.FirstFit.{Page, FreeArea, default_init, default_init_memmap, reset_reserved, set_page}
use nku_os.Mm.FirstFit.Blocks.{IsArea}
use nku_os.Mm.FirstFit.Free.{add_block-IsArea}
use nku_os.LinkedList.Ops.{list_init-empty}

abbrev pub Reserved : ℕ → ℕ → FreeArea → Type 0
Reserved base n s = (p : ℕ) → base ≤ p → p < base + n → (s.page p).reserved ≡ true

reset_reserved-keeps :
    (n base : ℕ) (s : FreeArea)
    → Reserved base n s
    → (t : FreeArea) × (reset_reserved n base s ≡ some t)
      × (t.links ≡ s.links)
      × (t.nr_free ≡ s.nr_free)
unfolding reset_reserved
reset_reserved-keeps zero base s h = (s, refl, refl, refl)
reset_reserved-keeps (suc n) base s h =
    let q : Page = record { ref = 0; reserved = false; head = false; property = 0 } in
    let s1 = set_page base q s in
    let (t, e, l, f) = reset_reserved-keeps n (suc base) s1 (λ p a b. ground (arith, h p)) in
    (t, ground (arith, h base, e), ground (arith, l), ground (arith, f))

default_init-empty : (s : FreeArea) → IsArea (default_init s) []
unfolding default_init
default_init-empty s = record {
  ring = (list_init-empty s.links 0).0;
  heads = tt;
  ordered = tt;
  counted = refl;
  small = omega arith;
}

default_init-Reserved :
    (base n : ℕ) (s : FreeArea) → Reserved base n s → Reserved base n (default_init s)
unfolding default_init
default_init-Reserved base n s h = h

-- After `default_init`, giving `n > 0` reserved pages from `base` to the manager succeeds, and
-- the state is well-formed with exactly the block of these pages.
pub default_init_memmap-one_block :
    (fuel base n : ℕ) (s : FreeArea)
    → 0 < fuel
    → 0 < n
    → n < 2 ^ 32
    → Reserved base n s
    → (t : FreeArea) × (default_init_memmap fuel base n (default_init s) ≡ some t)
      × IsArea t ((base, n) ∷ [])
unfolding default_init_memmap
default_init_memmap-one_block fuel base n s f pos small h =
    let (t, e, l, c) =
      reset_reserved-keeps n base (default_init s) (default_init-Reserved base n s h) in
    let v0 = default_init-empty s in
    let v : IsArea t [] = record {
      ring = rw l v0.ring;
      heads = tt;
      ordered = tt;
      counted = rw c v0.counted;
      small = v0.small;
    } in
    let (u, e', w) =
      add_block-IsArea fuel base n [] pos f t [] v
        (record { before = tt; behind = tt; not_last = λ _. refl; small = omega arith }) in
    (u, ground (arith, e, e'), w)
