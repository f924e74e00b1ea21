-- ===== src/Fs/Stdin.antt =====
-- kern/fs/devs/dev_stdin.c: the buffer between the keyboard and the processes that read it.
pub mod Queue
mod Tests
use nku_os.Prelude.{
  ℕ, zero, suc, ◌+◌, ◌-◌, ◌%◌, Bool, true, false, not, ◌&&◌, ◌||◌, Option, none, some, List, [],
  ◌∷◌, ltb, ◌==◌, if◌then◌else◌, update, length,
}
use nku_os.Prelude.Partial.{◌>>=◌}
use nku_os.Errors.{e_inval}
use nku_os.Fs.Vfs.{Result, ok, err}
use nku_os.Fs.Iobuf.{Iobuf}

abbrev pub stdin_bufsize : ℕ
stdin_bufsize = 4096

-- The positions are 64-bit numbers that only grow, and do not wrap around. `world` has the wait queue and all else.
pub record Stdin (W : Type 0) : Type 0 where
  pub stdin_buffer : ℕ → ℕ
  pub p_rpos : ℕ
  pub p_wpos : ℕ
  pub world : W

-- `stdin_device_init`, whose `wait_queue_init` is the first parameter.
unfoldable pub stdin_device_init : {W : Type 0} → (W → W) → Stdin W → Stdin W
stdin_device_init init s = record s { p_rpos = 0; p_wpos = 0; world = init s.world }

-- What interrupts do in the meantime is in `wait`: it stands for the code from `wait_current_set` to
-- `wait_current_del`, and says whether the process was woken by the keyboard.
module _ {W : Type 0} (wait_queue_empty : W → Bool) (wakeup_queue : W → W)
    (wait : Stdin W → Bool × Stdin W) where
  abbrev pub advance : Stdin W → Stdin W
  advance s =
      if ltb (s.p_wpos - s.p_rpos) stdin_bufsize then record s { p_wpos = s.p_wpos + 1 } else s

  abbrev pub wake : Stdin W → Stdin W
  wake s = if not (wait_queue_empty s.world) then record s { world = wakeup_queue s.world } else s

  unfoldable pub dev_stdin_write : (c : ℕ) → Stdin W → Stdin W
  dev_stdin_write c s =
      let s1 = record s { stdin_buffer = update s.stdin_buffer (s.p_wpos % stdin_bufsize) c } in
      if not (c == 0) then wake (advance s1) else s

  abbrev pub then_char : ℕ → Option (List ℕ × Stdin W) → Option (List ℕ × Stdin W)
  then_char c none = none
  then_char c (some (cs, s)) = some (c ∷ cs, s)

  -- The loop of `dev_stdin_read` over the `left` characters that are asked for: what goes to `buf`, whose length is returned.
  unfoldable pub dev_stdin_read : ℕ → (left : ℕ) → Stdin W → Option (List ℕ × Stdin W)
  dev_stdin_read fuel zero s = some ([], s)
  dev_stdin_read zero (suc left) s = none
  dev_stdin_read (suc fuel) (suc left) s =
      let c = s.stdin_buffer (s.p_rpos % stdin_bufsize) in
      let taken = then_char c (dev_stdin_read fuel left (record s { p_rpos = s.p_rpos + 1 })) in
      let (woken, s1) = wait s in
      let again = dev_stdin_read fuel (suc left) s1 in
      if ltb s.p_rpos s.p_wpos then taken else if woken then again else some ([], s1)

  abbrev pub stdin_open : (open_flags : ℕ) → Result (Unit {0})
  stdin_open open_flags = if not (open_flags == 0) then err e_inval else ok tt

  -- The number of characters or an error, and the characters that went to `io_base`.
  unfoldable pub stdin_io :
      ℕ → Iobuf → (write : Bool) → Stdin W → Option (Result ℕ × List ℕ × Iobuf × Stdin W)
  unfolding dev_stdin_read
  stdin_io fuel iob write s =
      let read = do
        (cs, s1) ← dev_stdin_read fuel iob.io_resid s
        some (ok (length cs), cs, record iob { io_resid = iob.io_resid - length cs }, s1)
      in if not write then read else some (err e_inval, [], iob, s)
