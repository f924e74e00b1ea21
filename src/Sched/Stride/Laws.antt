-- ===== src/Sched/Stride/Laws.antt =====
-- The stride policy keeps what the core scheduler relies on.
use nku_os.Prelude.{ℕ, suc, ◌<◌, ◌≡◌, refl, sym, ◌∙◌, none, some, arith, ◌==◌, if◌then◌else◌}
use nku_os.Sched.Proc.{Procs}
use nku_os.Sched.Class.{SchedLaws}
use nku_os.Sched.SkewHeap.{SkewHeap, null, node, occurs}
use nku_os.Sched.SkewHeap.Laws.{occurs-insert, occurs-remove}
use nku_os.Sched.Stride.{
  RunQueue, less, root, stride_enqueue, stride_dequeue, stride_pick_next, default_sched_class,
}

pub root-occurs : (t : SkewHeap) (p : ℕ) → root t ≡ some p → 0 < occurs p t
root-occurs null p e = cc
root-occurs (node x l r) p e = ground (arith, e)

pub root-none : (t : SkewHeap) (n : ℕ) → root t ≡ none → occurs n t ≡ 0
root-none null n e = refl
root-none (node x l r) n e = absurd (ground (arith, e))

abbrev pub queued : RunQueue → ℕ → ℕ
queued rq n = occurs n rq.lab6_run_pool

module _ (p : ℕ) (t : Procs) (q : RunQueue) (n : ℕ) where
  pub enqueue_lem :
      (queued (stride_enqueue p t q).1 n ≡ (if n == p then suc (queued q n) else queued q n))
      × (((stride_enqueue p t q).0 n).state ≡ (t n).state)
      × (((stride_enqueue p t q).0 n).wait_state ≡ (t n).wait_state)
  unfolding stride_enqueue
  enqueue_lem = (occurs-insert (less t) q.lab6_run_pool p n, ground arith, ground arith)

  pub dequeue_lem :
      (queued q p ≡ 1 → queued (stride_dequeue p t q).1 n ≡ (if n == p then 0 else queued q n))
      × (((stride_dequeue p t q).0 n).state ≡ (t n).state)
  unfolding stride_dequeue
  dequeue_lem = (occurs-remove (less t) q.lab6_run_pool p n, refl)

pub pick_lem :
    (t : Procs) (q : RunQueue) (n : ℕ)
    → (queued (stride_pick_next t q).2 n ≡ queued q n)
      × (((stride_pick_next t q).1 n).state ≡ (t n).state)
      × ((stride_pick_next t q).0 ≡ root q.lab6_run_pool)
unfolding stride_pick_next
pick_lem t q n = ground arith

-- `default_sched_class` is a queue of processes: it meets every law of the interface.
abbrev pub stride_laws : SchedLaws default_sched_class
stride_laws = record {
  members = queued;
  enqueue_members = λ p t q n. (enqueue_lem p t q n).0;
  dequeue_members = λ p t q n. (dequeue_lem p t q n).0;
  pick_members = λ t q n. (pick_lem t q n).0;
  pick_some = λ t q p e. root-occurs q.lab6_run_pool p (sym (pick_lem t q p).2 ∙ e);
  pick_none = λ t q n e. root-none q.lab6_run_pool n (sym (pick_lem t q n).2 ∙ e);
  enqueue_states = λ p t q n. (enqueue_lem p t q n).1;
  enqueue_wait_states = λ p t q n. (enqueue_lem p t q n).2;
  dequeue_states = λ p t q n. (dequeue_lem p t q n).1;
  pick_states = λ t q n. (pick_lem t q n).1;
}
