-- ===== src/Batch/Run/Ends.antt =====
-- internal/service/batch.go: a run cannot get stuck, and ends after a bounded number of steps.
use dnsgolang.Base.{
  ℕ, ◌+◌, ◌*◌, ◌≤◌, ◌<◌, ◌≡◌, ◌⊎◌, inl, inr, refl, ap, Bool, true, false, List, [], ◌∷◌, ◌++◌,
  arith, length, leb, Bool-cases,
}
use dnsgolang.Batch.Rows.{WorkItem, BatchResult}
use dnsgolang.Batch.Run.{
  Setup, row_of, Phase, probing, counted, sending, Writer, waiting, flushed, has_success, Flight,
  launch, flush, receive, counts, Step, start, stop, count_done, count_result, send, receives, tick,
  reads_success, writes_progress, Steps, none_yet, more, HasLanded,
}
use dnsgolang.Batch.Run.Totals.{total, total-changed, total-removed, total-added}

-- The steps that are left for an item or row, at most, by where it is.
abbrev phase_steps : Phase × WorkItem → ℕ
phase_steps (probing, item) = 7
phase_steps (counted, item) = 6
phase_steps (sending, item) = 5

abbrev writer_steps : Writer → ℕ
writer_steps waiting = 0
writer_steps flushed = 2
writer_steps (has_success n) = 1

abbrev pub steps_left : Flight → ℕ
steps_left s =
    8 * length s.todo
    + total phase_steps s.workers
    + 4 * length s.channel
    + length s.buffer
    + writer_steps s.writer

length-added :
    (rows : List BatchResult) (r : BatchResult) → length (rows ++ (r ∷ [])) ≡ length rows + 1
length-added [] r = refl
length-added (x ∷ rows) r = omega (arith, length-added rows r)

flush-left :
    (accepted : Bool) (s : Flight) → steps_left (flush accepted s) + length s.buffer ≡ steps_left s
unfolding flush
flush-left true s = omega arith
flush-left false s = omega arith

receive-left :
    (env : Setup) (accepted : Bool) (r : BatchResult) (rest : List BatchResult) (s : Flight)
    → s.writer ≡ waiting
    → s.channel ≡ r ∷ rest
    → steps_left (receive env accepted r rest s) < steps_left s
unfolding receive flush
receive-left env true r rest s idle e =
    elim (Bool-cases (leb env.flush_size (length (s.buffer ++ (r ∷ []))))) [
      | inl h ↦ rw (h, receive) (omega (arith, ap length e, ap writer_steps idle))
      | inr h ↦
          rw (h, receive)
            (omega (arith, length-added s.buffer r, ap length e, ap writer_steps idle))
    ]
receive-left env false r rest s idle e =
    elim (Bool-cases (leb env.flush_size (length (s.buffer ++ (r ∷ []))))) [
      | inl h ↦ rw (h, receive) (omega (arith, ap length e, ap writer_steps idle))
      | inr h ↦
          rw (h, receive)
            (omega (arith, length-added s.buffer r, ap length e, ap writer_steps idle))
    ]

Step-left :
    (env : Setup) (items : List WorkItem) (s s' : Flight)
    → Step env items s s'
    → steps_left s' < steps_left s
unfolding counts
Step-left env items _ _ (start s item rest e room) =
    omega (arith, ap length e, total-added phase_steps s.workers (probing, item))
Step-left env items _ _ (stop s item rest e asks) = omega (arith, ap length e)
Step-left env items _ _ (count_done s before after item e) =
    omega
      (arith, total-changed phase_steps s.workers before after (probing, item) (counted, item) e)
Step-left env items _ _ (count_result s before after item e) =
    omega
      (arith, total-changed phase_steps s.workers before after (counted, item) (sending, item) e)
Step-left env items _ _ (send s before after item e room) = omega (
  arith,
  total-removed phase_steps s.workers before after (sending, item) e,
  length-added s.channel (row_of env item),
)
Step-left env items _ _ (receives s accepted r rest idle e) =
    receive-left env accepted r rest s idle e
Step-left env items _ _ (tick s accepted r rest idle e) =
    omega (arith, flush-left accepted s, ap length e)
Step-left env items _ _ (reads_success s e) = omega (arith, ap writer_steps e)
Step-left env items _ _ (writes_progress s n e) = omega (arith, ap writer_steps e)

Steps-left :
    (env : Setup) (items : List WorkItem) (n : ℕ) (s s' : Flight)
    → Steps env items n s s'
    → n + steps_left s' ≤ steps_left s
Steps-left env items _ _ _ (none_yet s) = omega arith
Steps-left env items _ _ _ (more n s s' s'' steps step) =
    omega (arith, Steps-left env items n s s' steps, Step-left env items s' s'' step)

-- Some step is possible in this state.
abbrev pub CanStep : Setup → List WorkItem → Flight → Type 0
CanStep env items s = (s' : Flight) × Step env items s s'

worker_step :
    (env : Setup) (items : List WorkItem) (s : Flight) (x : Phase × WorkItem)
    (rest : List (Phase × WorkItem))
    → 1 ≤ env.flush_size
    → s.channel ≡ []
    → s.workers ≡ x ∷ rest
    → CanStep env items s
worker_step env items s (probing, item) rest size empty e = (_, count_done s [] rest item e)
worker_step env items s (counted, item) rest size empty e = (_, count_result s [] rest item e)
worker_step env items s (sending, item) rest size empty e =
    (_, send s [] rest item e (omega (arith, size, ap length empty)))

waiting_step :
    (env : Setup) (items : List WorkItem) (s : Flight) (todo : List WorkItem)
    (workers : List (Phase × WorkItem)) (channel buffer : List BatchResult)
    → 1 ≤ env.concurrency
    → 1 ≤ env.flush_size
    → s.writer ≡ waiting
    → s.todo ≡ todo
    → s.workers ≡ workers
    → s.channel ≡ channel
    → s.buffer ≡ buffer
    → CanStep env items s ⊎ HasLanded s
waiting_step env items s todo workers (r ∷ rest) buffer c f idle t w ch b =
    inl (_, receives s true r rest idle ch)
waiting_step env items s todo (x ∷ rest) [] buffer c f idle t w ch b =
    inl (worker_step env items s x rest f ch w)
waiting_step env items s (item ∷ rest) [] [] buffer c f idle t w ch b =
    inl (_, start s item rest t (omega (arith, c, ap length w)))
waiting_step env items s [] [] [] (r ∷ rest) c f idle t w ch b = inl (_, tick s true r rest idle b)
waiting_step env items s [] [] [] [] c f idle t w ch b = inr (t, w, ch, b, idle)

-- With room for a worker and for a row, a run is never stuck: in each state some step is possible,
-- or the run has ended. And it ends: no run from its items takes more than eight steps for each.
pub Steps-end :
    (env : Setup) (items : List WorkItem) (n : ℕ) (s : Flight)
    → 1 ≤ env.concurrency
    → 1 ≤ env.flush_size
    → Steps env items n (launch items) s
    → (CanStep env items s ⊎ HasLanded s) × (n ≤ 8 * length items)
Steps-end env items n s c f steps =
    (go s.writer refl, omega (arith, Steps-left env items n (launch items) s steps))
  where
    go : (w : Writer) → s.writer ≡ w → CanStep env items s ⊎ HasLanded s
    go waiting e =
        waiting_step env items s s.todo s.workers s.channel s.buffer c f e refl refl refl refl
    go flushed e = inl (_, reads_success s e)
    go (has_success m) e = inl (_, writes_progress s m e)
