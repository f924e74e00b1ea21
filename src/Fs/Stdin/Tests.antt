-- ===== src/Fs/Stdin/Tests.antt =====
-- A buffer that nobody waits for.
use nku_os.Prelude.{
  ℕ, ◌≡◌, ◌+◌, refl, Bool, true, false, some, List, [], ◌∷◌, arith, length, zero, suc,
}
use nku_os.Fs.Stdin.{Stdin, dev_stdin_read}
use nku_os.Fs.Stdin.Queue.{Holds, Buffered, type_text, dev_stdin_read-type_text}

abbrev W : Type 0
W = Unit {0}

abbrev alone : W → Bool
alone w = true

abbrev same : W → W
same w = w

abbrev no_wait : Stdin W → Bool × Stdin W
no_wait s = (false, s)

abbrev wrapped : Stdin W
wrapped = record { stdin_buffer = λ i. b'?'; p_rpos = 4095; p_wpos = 4095; world = tt }

wrapped-Holds : Holds W wrapped []
wrapped-Holds = record { chars = tt; size = refl; room = omega arith }

dev_stdin_read-type_text_example :
    (s' : Stdin W) × (dev_stdin_read alone same no_wait 4096 2
        (type_text alone same no_wait (b'l' ∷ b's' ∷ []) wrapped)
      ≡ some (b'l' ∷ b's' ∷ [], s'))
    × Holds W s' []
dev_stdin_read-type_text_example =
    dev_stdin_read-type_text alone same no_wait (b'l' ∷ b's' ∷ []) wrapped [] refl wrapped-Holds
      (omega arith)

abbrev marks : ℕ → List ℕ
marks zero = []
marks (suc n) = b'?' ∷ marks n

length-marks : (n : ℕ) → length (marks n) ≡ n
length-marks zero = refl
length-marks (suc n) = omega (arith, length-marks n)

marks-Buffered : (n pos : ℕ) → Buffered (λ i. b'?') pos (marks n)
marks-Buffered zero pos = tt
marks-Buffered (suc n) pos = (refl, marks-Buffered n (pos + 1))

abbrev full_buffer : Stdin W
full_buffer = record { stdin_buffer = λ i. b'?'; p_rpos = 10; p_wpos = 4106; world = tt }

full-Holds : Holds W full_buffer (b'?' ∷ marks 4095)
full-Holds = record {
  chars = (refl, marks-Buffered 4095 11);
  size = omega (arith, length-marks 4095);
  room = omega (arith, length-marks 4095);
}
