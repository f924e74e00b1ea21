-- ===== src/Numbers/Tests.antt =====
-- Runs of printing and reading numbers.
use nku_os.Prelude.{◌≡◌, ◌-◌, ◌^◌, refl, some, [], ◌∷◌, arith}
use nku_os.Strings.{Memory}
use nku_os.Numbers.{printnum, strtol, hash32, rand}
use nku_os.Numbers.RoundTrip.{read_back, store, strtol-printnum}

abbrev zeros : Memory
zeros = λ a. 0

prints : printnum 200 0x1f 16 4 b' ' ≡ some (b' ' ∷ b' ' ∷ b'1' ∷ b'f' ∷ [])
unfolding printnum
prints = refl

reads :
    strtol 9 100 0 (store 100 (9 ∷ b'-' ∷ b'0' ∷ b'x' ∷ b'1' ∷ b'F' ∷ b'g' ∷ []) zeros)
    ≡ some (2 ^ 64 - 31, 106)
unfolding strtol nku_os.Numbers.gobble nku_os.Numbers.strtol_digits
reads = refl

strtol-printnum_example : read_back 100 16 8 0xbeef zeros ≡ some 0xbeef
strtol-printnum_example =
    strtol-printnum 100 16 8 0xbeef zeros (omega arith) (omega arith) (omega arith)
