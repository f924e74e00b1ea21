-- ===== src/Fs/Stdin/Queue.antt =====
-- The buffer as a queue of characters.
use mathlib.Core.Path.{subst}
use nku_os.Prelude.{
  ℕ, zero, suc, ◌+◌, ◌-◌, ◌%◌, ◌≤◌, ◌<◌, ◌≡◌, ◌≢◌, refl, Bool, true, false, some, List, [], ◌∷◌,
  ◌++◌, ltb, ◌==◌, update, length, length-append, append-nil, append_assoc, count, arith,
  Bool-cases, inl, inr,
}
use nku_os.Fs.Stdin.{stdin_bufsize, Stdin, wake, dev_stdin_write, dev_stdin_read}

-- From position `pos` on, the buffer holds these characters.
abbrev pub Buffered : (ℕ → ℕ) → (pos : ℕ) → List ℕ → Type 0
Buffered b pos [] = Unit {0}
Buffered b pos (c ∷ cs) = (b (pos % stdin_bufsize) ≡ c) × Buffered b (pos + 1) cs

-- The characters that are written and not read.
pub record Holds (W : Type 0) (s : Stdin W) (q : List ℕ) : Type 0 where
  pub chars : Buffered s.stdin_buffer s.p_rpos q
  pub size : s.p_rpos + length q ≡ s.p_wpos
  pub room : length q ≤ stdin_bufsize

Buffered-snoc :
    (b : ℕ → ℕ) (pos w : ℕ) (q : List ℕ) (c : ℕ)
    → Buffered b pos q
    → pos + length q ≡ w
    → length q < stdin_bufsize
    → Buffered (update b (w % stdin_bufsize) c) pos (q ++ c ∷ [])
Buffered-snoc b pos w [] c h e lt = (ground (arith, e), tt)
Buffered-snoc b pos w (x ∷ q) c h e lt =
    let apart : pos % stdin_bufsize ≢ w % stdin_bufsize = omega (arith, e, lt) in
    (
      ground (arith, h.0, apart),
      Buffered-snoc b (pos + 1) w q c h.1 (omega (arith, e)) (omega (arith, lt)),
    )

-- Another character at a place that the queue does not use.
Buffered-frame :
    (b : ℕ → ℕ) (pos w : ℕ) (q : List ℕ) (c : ℕ)
    → Buffered b pos q
    → pos + length q ≤ w
    → w < pos + stdin_bufsize
    → Buffered (update b (w % stdin_bufsize) c) pos q
Buffered-frame b pos w [] c h le lt = tt
Buffered-frame b pos w (x ∷ q) c h le lt =
    let apart : pos % stdin_bufsize ≢ w % stdin_bufsize = omega (arith, le, lt) in
    (
      ground (arith, h.0, apart),
      Buffered-frame b (pos + 1) w q c h.1 (omega (arith, le)) (omega (arith, lt)),
    )

length-snoc : (q : List ℕ) (c : ℕ) → length (q ++ c ∷ []) ≡ suc (length q)
length-snoc [] c = refl
length-snoc (x ∷ q) c = omega (arith, length-snoc q c)

module _ {W : Type 0} (wait_queue_empty : W → Bool) (wakeup_queue : W → W)
    (wait : Stdin W → Bool × Stdin W) where
  wake-Holds :
      (s : Stdin W) (q : List ℕ)
      → Holds W s q
      → Holds W (wake wait_queue_empty wakeup_queue wait s) q
  wake-Holds s q h = elim (Bool-cases (wait_queue_empty s.world)) [
    | inl e ↦ rw e h
    | inr e ↦ rw e (record { chars = h.chars; size = h.size; room = h.room })
  ]

  -- A character that is typed goes to the end of the queue while the queue has room.
  dev_stdin_write-Holds :
      (c : ℕ) (s : Stdin W) (q : List ℕ)
      → c ≢ 0
      → Holds W s q
      → length q < stdin_bufsize
      → Holds W (dev_stdin_write wait_queue_empty wakeup_queue wait c s) (q ++ c ∷ [])
  unfolding dev_stdin_write
  dev_stdin_write-Holds c s q ne h lt =
      let t : (c == 0) ≡ false = ground (arith, ne) in
      let r : ltb (s.p_wpos - s.p_rpos) stdin_bufsize ≡ true = ground (arith, lt, h.size) in
      let s1 : Stdin W = record s {
        stdin_buffer = update s.stdin_buffer (s.p_wpos % stdin_bufsize) c;
        p_wpos = s.p_wpos + 1;
      } in
      rw (t, r)
        (wake-Holds s1 (q ++ c ∷ []) (record {
          chars = Buffered-snoc s.stdin_buffer s.p_rpos s.p_wpos q c h.chars h.size lt;
          size = omega (arith, h.size, length-snoc q c);
          room = omega (arith, lt, length-snoc q c);
        }))

  -- A character that is typed into a full buffer is not dropped: it takes the place of the oldest one that was not read, and
  -- is read first.
  pub dev_stdin_write-overwrites :
      (c : ℕ) (s : Stdin W) (x : ℕ) (q : List ℕ)
      → c ≢ 0
      → Holds W s (x ∷ q)
      → length (x ∷ q) ≡ stdin_bufsize
      → Holds W (dev_stdin_write wait_queue_empty wakeup_queue wait c s) (c ∷ q)
  unfolding dev_stdin_write
  dev_stdin_write-overwrites c s x q ne h full =
      let t : (c == 0) ≡ false = ground (arith, ne) in
      let size = h.size in
      let r : ltb (s.p_wpos - s.p_rpos) stdin_bufsize ≡ false = ground (arith, size, full) in
      let same : s.p_rpos % stdin_bufsize ≡ s.p_wpos % stdin_bufsize = omega (arith, size, full) in
      let s1 : Stdin W = record s {
        stdin_buffer = update s.stdin_buffer (s.p_wpos % stdin_bufsize) c;
      } in
      rw (t, r)
        (wake-Holds s1 (c ∷ q) (record {
          chars = (
            ground (arith, same),
            Buffered-frame s.stdin_buffer (s.p_rpos + 1) s.p_wpos q c h.chars.1
                (omega (arith, size)) (omega (arith, size, full)),
          );
          size = size;
          room = h.room;
        }))

  -- A read of characters that are there takes them in the order of the queue, and does not wait.
  dev_stdin_read-Holds :
      (fuel : ℕ) (s : Stdin W) (xs q : List ℕ)
      → Holds W s (xs ++ q)
      → length xs ≤ fuel
      → (s' : Stdin W) × (dev_stdin_read wait_queue_empty wakeup_queue wait fuel (length xs) s
          ≡ some (xs, s'))
        × Holds W s' q
  unfolding dev_stdin_read
  dev_stdin_read-Holds fuel s [] q h le = (s, refl, h)
  dev_stdin_read-Holds zero s (x ∷ xs) q h le = absurd (omega (arith, le))
  dev_stdin_read-Holds (suc fuel) s (x ∷ xs) q h le =
      let s1 : Stdin W = record s { p_rpos = s.p_rpos + 1 } in
      let h1 : Holds W s1 (xs ++ q) = record {
        chars = h.chars.1;
        size = omega (arith, h.size);
        room = omega (arith, h.room);
      } in
      let there : ltb s.p_rpos s.p_wpos ≡ true = ground (arith, h.size) in
      let (s', run, h') = dev_stdin_read-Holds fuel s1 xs q h1 (omega (arith, le)) in
      (s', rw (there, run, h.chars.0) refl, h')

  -- The interrupts of a text that is typed.
  unfoldable pub type_text : List ℕ → Stdin W → Stdin W
  unfolding dev_stdin_write
  type_text [] s = s
  type_text (c ∷ cs) s = type_text cs (dev_stdin_write wait_queue_empty wakeup_queue wait c s)

  type_text-Holds :
      (cs : List ℕ) (s : Stdin W) (q : List ℕ)
      → count 0 cs ≡ 0
      → Holds W s q
      → length q + length cs ≤ stdin_bufsize
      → Holds W (type_text cs s) (q ++ cs)
  unfolding type_text
  type_text-Holds [] s q h t le = rw (append-nil q) t
  type_text-Holds (c ∷ cs) s q h t le =
      let s1 = dev_stdin_write wait_queue_empty wakeup_queue wait c s in
      let t1 : Holds W s1 (q ++ c ∷ []) =
        dev_stdin_write-Holds c s q (ground (arith, h)) t (omega (arith, le)) in
      let t2 : Holds W (type_text cs s1) ((q ++ c ∷ []) ++ cs) =
        type_text-Holds cs s1 (q ++ c ∷ []) (ground (arith, h)) t1
          (omega (arith, le, length-snoc q c)) in
      subst (λ xs. Holds W (type_text cs s1) xs) (append_assoc q (c ∷ []) cs) t2

  -- What is typed is read: a read of as many characters as are there and are typed, if they fit into the
  -- buffer and none is the zero character, returns the old ones and then the new ones in their order without waiting, and
  -- leaves the buffer empty.
  pub dev_stdin_read-type_text :
      (cs : List ℕ) (s : Stdin W) (q : List ℕ)
      → count 0 cs ≡ 0
      → Holds W s q
      → length q + length cs ≤ stdin_bufsize
      → (s' : Stdin W) × (dev_stdin_read wait_queue_empty wakeup_queue wait stdin_bufsize
            (length (q ++ cs))
            (type_text cs s)
          ≡ some (q ++ cs, s'))
        × Holds W s' []
  dev_stdin_read-type_text cs s q h t le =
      let t' : Holds W (type_text cs s) ((q ++ cs) ++ []) =
        rw (append-nil (q ++ cs)) (type_text-Holds cs s q h t le) in
      dev_stdin_read-Holds stdin_bufsize (type_text cs s) (q ++ cs) [] t'
        (omega (arith, le, length-append q cs))
