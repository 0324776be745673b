-- ===== src/Batch/Run/Counts.antt =====
-- internal/service/batch.go: what holds at every moment of a run, in whatever order the workers and the
-- writer go on.
use dnsgolang.Base.{
  ℕ, ◌+◌, ◌≤◌, ◌≡◌, refl, ap, ◌∙◌, Bool, true, false, List, [], ◌∷◌, ◌++◌, arith, length, ◌⊎◌, inl,
  inr, leb, Bool-cases,
}
use dnsgolang.Batch.Rows.{WorkItem, BatchResult, build_batch_result_row}
use dnsgolang.Batch.Run.{
  Setup, row_of, Phase, probing, counted, sending, Writer, waiting, flushed, has_success, Flight,
  launch, flush, receive, counts, b2n, sum_of, count_of, Step, start, stop, count_done,
  count_result, send, receives, tick, reads_success, writes_progress, Steps, none_yet, more,
}
use dnsgolang.Batch.Run.Totals.{
  total, total-changed, total-removed, total-added, flown, IsSame, flush-IsSame, receive-IsSame,
  after_done, after_result,
}

-- The sum over the rows of all items, wherever they are.
abbrev pub held : Setup → (BatchResult → ℕ) → Flight → ℕ
held env w s =
    total (λ i. w (row_of env i)) s.todo + total (λ x. w (row_of env x.1)) s.workers + flown w s

-- A counter is the sum over the rows whose workers have added to it.
abbrev IsSum : Setup → (BatchResult → ℕ) → ℕ → Flight → Type 0
IsSum env w n s = n ≡ total (after_result env w) s.workers + flown w s

abbrev pub succeeded : BatchResult → ℕ
succeeded r = b2n r.succeeded

abbrev pub latency : BatchResult → ℕ
latency r = sum_of r.latency

abbrev pub timed : BatchResult → ℕ
timed r = count_of r.latency

abbrev pub one_each : BatchResult → ℕ
one_each r = 1

-- The number of successes that the writer has read is not above those that are counted.
abbrev pub HasRead : Writer → ℕ → Type 0
HasRead waiting n = Unit
HasRead flushed n = Unit
HasRead (has_success m) n = m ≤ n

abbrev pub IsCounted : Setup → Flight → Type 0
IsCounted env s =
    (s.done_count ≡ total after_done s.workers + flown one_each s)
    × IsSum env succeeded s.success_count s
    × IsSum env latency s.latency_sum s
    × IsSum env timed s.latency_count s
    × HasRead s.writer s.success_count

IsSum-moved :
    (env : Setup) (w : BatchResult → ℕ) (n : ℕ) (s : Flight)
    (before after : List (Phase × WorkItem)) (x y : Phase × WorkItem)
    → s.workers ≡ before ++ (x ∷ after)
    → after_result env w x ≡ 0
    → IsSum env w n s
    → n + after_result env w y ≡ total (after_result env w) (before ++ (y ∷ after)) + flown w s
IsSum-moved env w n s before after x y e z h =
    omega (arith, z, h, total-changed (after_result env w) s.workers before after x y e)

IsSum-sent :
    (env : Setup) (w : BatchResult → ℕ) (n : ℕ) (s : Flight)
    (before after : List (Phase × WorkItem)) (item : WorkItem)
    → s.workers ≡ before ++ ((sending, item) ∷ after)
    → IsSum env w n s
    → IsSum env w n
        (record s { workers = before ++ after; channel = s.channel ++ (row_of env item ∷ []) })
IsSum-sent env w n s before after item e h = omega (
  arith,
  h,
  total-removed (after_result env w) s.workers before after (sending, item) e,
  total-added w s.channel (row_of env item),
)

pub HasRead-le : (r : Writer) (n m : ℕ) → n ≤ m → HasRead r n → HasRead r m
HasRead-le waiting n m le h = tt
HasRead-le flushed n m le h = tt
HasRead-le (has_success k) n m le h = omega (arith, le, h)

IsSum-same :
    (env : Setup) (w : BatchResult → ℕ) (n n' : ℕ) (s s' : Flight)
    → IsSame s s'
    → n' ≡ n
    → IsSum env w n s
    → IsSum env w n' s'
IsSum-same env w n n' s s' (workers, _, _, _, _, _, _, rows) e h =
    omega (arith, ap (total (after_result env w)) workers, rows w, e, h)

IsCounted-same :
    (env : Setup) (s s' : Flight)
    → IsSame s s'
    → HasRead s'.writer s'.success_count
    → IsCounted env s
    → IsCounted env s'
IsCounted-same env s s' same r (d, u, l, c, _) =
    let (workers, _, _, done, successes, sum, count, rows) = same in
    (
      omega (arith, ap (total after_done) workers, rows one_each, done, d),
      IsSum-same env succeeded s.success_count s'.success_count s s' same successes u,
      IsSum-same env latency s.latency_sum s'.latency_sum s s' same sum l,
      IsSum-same env timed s.latency_count s'.latency_count s s' same count c,
      r,
    )

not_reading : (r : Writer) (n : ℕ) → (r ≡ waiting) ⊎ (r ≡ flushed) → HasRead r n
not_reading waiting n h = tt
not_reading flushed n h = tt
not_reading (has_success m) n (inl h) = cc
not_reading (has_success m) n (inr h) = cc

flush-writer : (accepted : Bool) (s : Flight) → (flush accepted s).writer ≡ s.writer
unfolding flush
flush-writer true s = refl
flush-writer false s = refl

receive-writer :
    (env : Setup) (accepted : Bool) (r : BatchResult) (rest : List BatchResult) (s : Flight)
    → s.writer ≡ waiting
    → let w = (receive env accepted r rest s).writer in (w ≡ waiting) ⊎ (w ≡ flushed)
unfolding receive
receive-writer env accepted r rest s e =
    elim (Bool-cases (leb env.flush_size (length (s.buffer ++ (r ∷ []))))) [
      | inl h ↦ inr (rw (h, receive) refl)
      | inr h ↦ inl (rw (h, receive) e)
    ]

IsCounted-Step :
    (env : Setup) (items : List WorkItem) (s s' : Flight)
    → Step env items s s'
    → IsCounted env s
    → IsCounted env s'
unfolding counts row_of build_batch_result_row
IsCounted-Step env items _ _ (start s item rest e room) (d, u, l, c, r) = (
  omega (arith, d, total-added after_done s.workers (probing, item)),
  omega (arith, u, total-added (after_result env succeeded) s.workers (probing, item)),
  omega (arith, l, total-added (after_result env latency) s.workers (probing, item)),
  omega (arith, c, total-added (after_result env timed) s.workers (probing, item)),
  r,
)
IsCounted-Step env items _ _ (stop s item rest e asks) h = h
IsCounted-Step env items _ _ (count_done s before after item e) (d, u, l, c, r) = (
  omega
      (arith, d, total-changed after_done s.workers before after (probing, item) (counted, item) e),
  omega (
    arith,
    IsSum-moved env succeeded s.success_count s before after (probing, item) (counted, item) e refl
        u,
  ),
  omega (
    arith,
    IsSum-moved env latency s.latency_sum s before after (probing, item) (counted, item) e refl l,
  ),
  omega (
    arith,
    IsSum-moved env timed s.latency_count s before after (probing, item) (counted, item) e refl c,
  ),
  r,
)
IsCounted-Step env items _ _ (count_result s before after item e) (d, u, l, c, r) = (
  omega
      (arith, d, total-changed after_done s.workers before after (counted, item) (sending, item) e),
  IsSum-moved env succeeded s.success_count s before after (counted, item) (sending, item) e refl u,
  IsSum-moved env latency s.latency_sum s before after (counted, item) (sending, item) e refl l,
  IsSum-moved env timed s.latency_count s before after (counted, item) (sending, item) e refl c,
  HasRead-le s.writer s.success_count _ (omega arith) r,
)
IsCounted-Step env items _ _ (send s before after item e room) (d, u, l, c, r) = (
  omega (
    arith,
    d,
    total-removed after_done s.workers before after (sending, item) e,
    total-added one_each s.channel (row_of env item),
  ),
  IsSum-sent env succeeded s.success_count s before after item e u,
  IsSum-sent env latency s.latency_sum s before after item e l,
  IsSum-sent env timed s.latency_count s before after item e c,
  r,
)
IsCounted-Step env items _ _ (receives s accepted row rest idle e) h =
    IsCounted-same env s (receive env accepted row rest s)
      (receive-IsSame env accepted row rest s e)
      (not_reading _ _ (receive-writer env accepted row rest s idle)) h
IsCounted-Step env items _ _ (tick s accepted row rest idle e) h =
    IsCounted-same env s (flush accepted s) (flush-IsSame accepted s)
      (not_reading _ _ (inl (flush-writer accepted s ∙ idle))) h
IsCounted-Step env items _ _ (reads_success s e) (d, u, l, c, r) = (d, u, l, c, omega arith)
IsCounted-Step env items _ _ (writes_progress s n e) (d, u, l, c, r) = (d, u, l, c, tt)

pub IsCounted-launch : (env : Setup) (items : List WorkItem) → IsCounted env (launch items)
IsCounted-launch env items = (omega arith, omega arith, omega arith, omega arith, tt)

pub IsCounted-Steps :
    (env : Setup) (items : List WorkItem) (n : ℕ) (s s' : Flight)
    → Steps env items n s s'
    → IsCounted env s
    → IsCounted env s'
IsCounted-Steps env items _ _ _ (none_yet s) h = h
IsCounted-Steps env items _ _ _ (more n s s' s'' steps step) h =
    IsCounted-Step env items s' s'' step (IsCounted-Steps env items n s s' steps h)
