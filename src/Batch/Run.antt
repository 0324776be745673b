-- ===== src/Batch/Run.antt =====
-- internal/service/batch.go: `RunBatchExecution`, whose workers probe the items at the same time while
-- one writer stores their rows. A step is one operation on what they share: the atomic counters,
-- the semaphore, the channel, the buffer of the writer and the database.
pub mod Totals
pub mod Counts
pub mod Held
pub mod Ends
pub mod Tests
use dnsgolang.Base.{
  ℕ, zero, suc, ◌+◌, ◌-◌, ◌*◌, ◌%◌, ◌<◌, ◌≤◌, ◌≡◌, Bool, true, false, Option, none, some, List, [],
  ◌∷◌, ◌++◌, if◌then◌else◌, length, leb,
}
use dnsgolang.Base.Text.{Text}
use dnsgolang.Tasks.Rows.{ProbeResult}
use dnsgolang.Batch.Rows.{
  Probes, Json, WorkItem, BatchResult, run_batch_target_probe, build_batch_result_row,
}

-- What a run has at hand: its execution, the sizes of the configuration, the code of the default
-- node and the probes.
pub record Setup : Type 0 where
  pub execution_id : ℕ
  pub concurrency : ℕ
  pub flush_size : ℕ
  pub node_code : Text
  pub probes : Probes
  pub json : Json

unfoldable pub probed : Setup → WorkItem → ProbeResult
probed env item =
    run_batch_target_probe env.probes item.protocol item.target.normalized_target item.opts

unfoldable pub row_of : Setup → WorkItem → BatchResult
unfolding probed
row_of env item =
    build_batch_result_row env.json env.execution_id item (probed env item) env.node_code

-- A worker probes its item, has counted it as done, or has counted its result and sends the row.
pub data Phase : Type 0 where
  probing counted sending : Phase

-- The writer waits for rows, is about to read the number of successes after a full buffer was
-- flushed, or has read it and is about to read the number of items that are done.
pub data Writer : Type 0 where
  waiting : Writer
  flushed : Writer
  has_success : ℕ → Writer

pub record Flight : Type 0 where
  pub todo : List WorkItem
  pub stopped : Bool
  pub workers : List (Phase × WorkItem)
  pub channel : List BatchResult
  pub buffer : List BatchResult
  pub stored : List BatchResult
  pub lost : List BatchResult
  pub writer : Writer
  pub done_count : ℕ
  pub success_count : ℕ
  pub latency_sum : ℕ
  pub latency_count : ℕ
  pub progress : Option (ℕ × ℕ)

abbrev pub launch : List WorkItem → Flight
launch items = record {
  todo = items;
  stopped = false;
  workers = [];
  channel = [];
  buffer = [];
  stored = [];
  lost = [];
  writer = waiting;
  done_count = 0;
  success_count = 0;
  latency_sum = 0;
  latency_count = 0;
  progress = none;
}

-- `flush`: the rows of the buffer are stored, or lost where the database refuses them.
unfoldable pub flush : Bool → Flight → Flight
flush accepted s =
    if accepted
    then record s { stored = s.stored ++ s.buffer; buffer = [] }
    else record s { lost = s.lost ++ s.buffer; buffer = [] }

abbrev pub b2n : Bool → ℕ
b2n true = 1
b2n false = 0

abbrev pub sum_of : Option ℕ → ℕ
sum_of none = 0
sum_of (some v) = v

abbrev pub count_of : Option ℕ → ℕ
count_of none = 0
count_of (some v) = 1

-- The writer takes a row into its buffer; a full one is flushed, and progress is written.
unfoldable pub receive : Setup → Bool → BatchResult → List BatchResult → Flight → Flight
unfolding flush
receive env accepted r channel s =
    let s' : Flight = record s { channel = channel; buffer = s.buffer ++ (r ∷ []) } in
    if leb env.flush_size (length s'.buffer)
    then record (flush accepted s') { writer = flushed }
    else s'

-- The counters take the result of an item.
unfoldable pub counts : ProbeResult → Flight → Flight
counts result s = record s {
  success_count = s.success_count + b2n result.succeeded;
  latency_sum = s.latency_sum + sum_of result.latency;
  latency_count = s.latency_count + count_of result.latency;
}

-- The steps, for the items that the run began with.
pub data Step (env : Setup) (items : List WorkItem) : Flight → Flight → Type 0 where
  -- The loop starts the next item where the semaphore has room.
  start :
      (s : Flight) (item : WorkItem) (rest : List WorkItem)
      → s.todo ≡ item ∷ rest
      → length s.workers < env.concurrency
      → Step env items s (record s { todo = rest; workers = s.workers ++ ((probing, item) ∷ []) })
  -- The loop asks every `concurrency` items whether to stop, and does.
  stop :
      (s : Flight) (item : WorkItem) (rest : List WorkItem)
      → s.todo ≡ item ∷ rest
      → (length items - length s.todo) % env.concurrency ≡ 0
      → Step env items s (record s { todo = []; stopped = true })
  -- A worker has its result and counts the item as done.
  count_done :
      (s : Flight) (before after : List (Phase × WorkItem)) (item : WorkItem)
      → s.workers ≡ before ++ ((probing, item) ∷ after)
      → Step env items s (record s {
        workers = before ++ ((counted, item) ∷ after);
        done_count = s.done_count + 1;
      })
  -- A worker counts the success and the latency.
  count_result :
      (s : Flight) (before after : List (Phase × WorkItem)) (item : WorkItem)
      → s.workers ≡ before ++ ((counted, item) ∷ after)
      → Step env items s
          (record (counts (probed env item) s) { workers = before ++ ((sending, item) ∷ after) })
  -- A worker sends its row, where the channel has room, and ends.
  send :
      (s : Flight) (before after : List (Phase × WorkItem)) (item : WorkItem)
      → s.workers ≡ before ++ ((sending, item) ∷ after)
      → length s.channel < env.flush_size * 2
      → Step env items s
          (record s { workers = before ++ after; channel = s.channel ++ (row_of env item ∷ []) })
  receives :
      (s : Flight) (accepted : Bool) (r : BatchResult) (rest : List BatchResult)
      → s.writer ≡ waiting
      → s.channel ≡ r ∷ rest
      → Step env items s (receive env accepted r rest s)
  -- The ticker, or the end of the channel, flushes a buffer that has rows.
  tick :
      (s : Flight) (accepted : Bool) (r : BatchResult) (rest : List BatchResult)
      → s.writer ≡ waiting
      → s.buffer ≡ r ∷ rest
      → Step env items s (flush accepted s)
  reads_success :
      (s : Flight)
      → s.writer ≡ flushed
      → Step env items s (record s { writer = has_success s.success_count })
  -- `failed_count` is the difference of the two that were read, by native subtraction.
  writes_progress :
      (s : Flight) (n : ℕ)
      → s.writer ≡ has_success n
      → Step env items s (record s { writer = waiting; progress = some (n, s.done_count - n) })

-- Some number of steps.
pub data Steps (env : Setup) (items : List WorkItem) : ℕ → Flight → Flight → Type 0 where
  none_yet : (s : Flight) → Steps env items 0 s s
  more :
      (n : ℕ) (s s' s'' : Flight)
      → Steps env items n s s'
      → Step env items s' s''
      → Steps env items (suc n) s s''

-- All workers and the writer have ended.
abbrev pub HasLanded : Flight → Type 0
HasLanded s =
    (s.todo ≡ []) × (s.workers ≡ []) × (s.channel ≡ []) × (s.buffer ≡ []) × (s.writer ≡ waiting)
