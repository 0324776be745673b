-- ===== src/Batch/Run/Tests.antt =====
-- internal/service/batch.go: the theorems on runs at a run with one item.
use dnsgolang.Base.{
  ℕ, ◌+◌, ◌-◌, ◌*◌, ◌≤◌, ◌≡◌, ◌⊎◌, refl, true, false, Option, none, some, List, [], ◌∷◌, map, arith,
}
use dnsgolang.Base.Text.{Text, txt}
use dnsgolang.Tasks.Rows.{ProbeResult, ResultStatus}
use dnsgolang.Tasks.Detail.{Detail}
use dnsgolang.Batch.Rows.{WorkItem, BatchResult, running}
use dnsgolang.Batch.Run.{
  Setup, row_of, probed, probing, counted, sending, waiting, has_success, Flight, launch, flush,
  receive, counts, Steps, none_yet, more, start, count_done, count_result, send, receives,
  reads_success, writes_progress, HasLanded,
}
use dnsgolang.Batch.Run.Totals.{total}
use dnsgolang.Batch.Run.Counts.{succeeded, latency, timed, HasRead}
use dnsgolang.Batch.Run.Held.{landed-rows, Steps-success_le}
use dnsgolang.Batch.Run.Ends.{CanStep, Steps-end}
use dnsgolang.Batch.Finish.{Rows, BatchExecution, BatchTask, no_message, end_batch}
use dnsgolang.Batch.Finish.Summary.{Sums, end_batch-Sums}

abbrev found : ProbeResult
found = record {
  succeeded = true;
  status = ResultStatus.success;
  resolved_target = [];
  latency = some 25000;
  error_code = [];
  error_message = [];
  detail = (txt "rcode", txt "NOERROR") ∷ [];
}

abbrev probe : Text → Detail → ProbeResult
probe target options = found

abbrev setup : Setup
setup = record {
  execution_id = 5;
  concurrency = 2;
  flush_size = 1;
  node_code = txt "n";
  probes = record {
    execute_http = probe;
    execute_ping = probe;
    execute_dns = probe;
    execute_mtr = probe;
    execute_traceroute = probe;
  };
  json = record { as_string = λ v. some v; printed = λ v. v };
}

abbrev item : WorkItem
item = record {
  target = record { line_no = 1; normalized_target = txt "a.b" };
  protocol = txt "dns";
  opts = [];
  region = txt "g";
}

abbrev items : List WorkItem
items = item ∷ []

abbrev s0 : Flight
s0 = launch items

abbrev s1 : Flight
s1 = record s0 { todo = []; workers = (probing, item) ∷ [] }

abbrev s2 : Flight
s2 = record s1 { workers = (counted, item) ∷ []; done_count = 1 }

abbrev s3 : Flight
s3 = record (counts (probed setup item) s2) { workers = (sending, item) ∷ [] }

abbrev s4 : Flight
s4 = record s3 { workers = []; channel = row_of setup item ∷ [] }

abbrev s5 : Flight
s5 = receive setup true (row_of setup item) [] s4

abbrev s6 : Flight
s6 = record s5 { writer = has_success s5.success_count }

abbrev s7 : Flight
s7 = record s6 {
  writer = waiting;
  progress = some (s5.success_count, s6.done_count - s5.success_count);
}

flies_six : Steps setup items 6 s0 s6
unfolding receive flush counts
flies_six =
    more 5 s0 s5 s6
      (more 4 s0 s4 s5
        (more 3 s0 s3 s4
          (more 2 s0 s2 s3
            (more 1 s0 s1 s2 (more 0 s0 s0 s1 (none_yet s0) (start s0 item [] refl (omega arith)))
              (count_done s1 [] [] item refl))
            (count_result s2 [] [] item refl))
          (send s3 [] [] item refl (omega arith)))
        (receives s4 true (row_of setup item) [] refl refl))
      (reads_success s5 refl)

flies_once : Steps setup items 7 s0 s7
unfolding receive flush counts
flies_once = more 6 s0 s6 s7 flies_six (writes_progress s6 s5.success_count refl)

Steps-success_le_example :
    (s6.success_count ≤ s6.done_count) × (s6.done_count ≤ 1) × HasRead s6.writer s6.done_count
Steps-success_le_example = Steps-success_le setup items 6 s6 flies_six

landed-rows_example :
    ((w : BatchResult → ℕ) → total w s7.stored ≡ total w (map (row_of setup) items))
    × (s7.done_count ≡ 1)
    × (s7.success_count ≡ total succeeded (map (row_of setup) items))
    × (s7.latency_sum ≡ total latency (map (row_of setup) items))
    × (s7.latency_count ≡ total timed (map (row_of setup) items))
unfolding receive flush counts
landed-rows_example =
    landed-rows setup items 7 s7 flies_once (refl, refl, refl, refl, refl) refl refl

Steps-end_example : (CanStep setup items s7 ⊎ HasLanded s7) × (7 ≤ 8 * 1)
Steps-end_example = Steps-end setup items 7 s7 (omega arith) (omega arith) flies_once

abbrev next_run : Text → ℕ → Option ℕ
next_run cron now = some (now + 60)

abbrev execution : BatchExecution
execution = record {
  status = running;
  success_count = 0;
  failed_count = 0;
  availability_ratio = 0;
  avg_latency = none;
  summary_message = no_message;
  finished_at = none;
  stop_requested_at = none;
  cancelled_at = none;
}

abbrev task : BatchTask
task = record {
  protocol = txt "dns";
  is_scheduled = true;
  schedule_cron = txt "* * * * *";
  status = running;
  finished_at = none;
  last_run_at = none;
  next_run_at = none;
}

end_batch-Sums_example :
    (out : Rows) × (end_batch next_run 100 items s7 false s7.stored (execution, task) ≡ some out)
    × Sums (map (row_of setup) items) out
unfolding receive flush counts
end_batch-Sums_example =
    end_batch-Sums setup items 7 s7 next_run 100 s7.stored execution task flies_once
      (refl, refl, refl, refl, refl) refl refl
