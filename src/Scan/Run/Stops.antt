-- ===== src/Scan/Run/Stops.antt =====
-- internal/service/scanner.go: how a run of a scan ends, and what a stop leaves of it.
use dnsgolang.Base.{
  ℕ, ◌+◌, ◌*◌, ◌/◌, ◌≤◌, ◌<◌, ◌≡◌, refl, sym, ap, ◌∙◌, ◌⊎◌, inl, Bool, true, false, Option, none,
  some, List, [], ◌∷◌, arith, if◌then◌else◌, length, any, subst, Bool-cases, inr, nat_beq,
  nat_beq_iff,
}
use native.Mathlib.Nat.{mul-div-le, lt-mul-div-succ}
use dnsgolang.Base.Text.{Text, txt}
use dnsgolang.Batch.Run.Totals.{total}
use dnsgolang.Scan.Host.{LibraryHost, ScanResult}
use dnsgolang.Scan.Run.{
  completed, ScanJob, ScanSummary, ScanEvent, landed, stop, is_stoppable, write_progress,
  request_scan_stop, take_event, take_events, begin_scan, finish_scan, summarize, run_scan_job,
  average_latency, or_kept_latency,
}
use dnsgolang.Scan.Tally.{Tally, no_tally, land}
use dnsgolang.Scan.Run.Sums.{
  tally_all, success_of, is_suspicious_of, error_of, latency_of, sample_of,
}
use dnsgolang.Scan.Run.Counted.{IsCounted, tally_all-IsCounted}

-- The results that are counted, in their order.
unfoldable pub results : List ScanEvent → List ScanResult
results [] = []
results (landed r ∷ es) = r ∷ results es
results (stop at ∷ es) = results es

abbrev pub is_stop : ScanEvent → Bool
is_stop (landed r) = false
is_stop (stop at) = true

abbrev pub manual_stop : Text
manual_stop = txt "manual_stop"

-- The job while its scan runs, with what it was when it began.
record IsUnderway (error : Text) (start job : ScanJob) : Type 0 where
  started : job.started_at ≡ start.started_at
  latency : job.avg_latency ≡ start.avg_latency
  noted : job.last_error ≡ error
  is_running_or_stopped : is_stoppable job.status ≡ true ⊎ (error ≡ manual_stop)

write_progress-IsUnderway :
    (total : ℕ) (t : Tally) (error : Text) (start job : ScanJob)
    → IsUnderway error start job
    → IsUnderway error start (write_progress total t job)
unfolding write_progress
write_progress-IsUnderway total t error start job u = ground arith

stop-IsUnderway :
    (at : ℕ) (error : Text) (start job : ScanJob)
    → IsUnderway error start job
    → IsUnderway manual_stop start (request_scan_stop at job)
unfolding request_scan_stop
stop-IsUnderway at error start job u = ground arith

-- The note that the events leave.
note_after : Text → List ScanEvent → Text
note_after error es = if any is_stop es then manual_stop else error

take_events-IsUnderway :
    (total : ℕ) (es : List ScanEvent) (t : Tally) (error : Text) (start job : ScanJob)
    → IsUnderway error start job
    → ((take_events total es (t, job)).0 ≡ tally_all (results es) t)
      × IsUnderway (note_after error es) start (take_events total es (t, job)).1
unfolding take_events take_event tally_all results note_after
take_events-IsUnderway total [] t error start job u = (refl, u)
take_events-IsUnderway total (landed r ∷ es) t error start job u =
    take_events-IsUnderway total es (land r t) error start (write_progress total (land r t) job)
      (write_progress-IsUnderway total (land r t) error start job u)
take_events-IsUnderway total (stop at ∷ es) t error start job u =
    let (e, v) =
      take_events-IsUnderway total es t manual_stop start (request_scan_stop at job)
        (stop-IsUnderway at error start job u) in
    (
      e,
      subst (λ n. IsUnderway n start (take_events total es (t, request_scan_stop at job)).1)
          (same (any is_stop es)) v,
    )
  where
    same : (b : Bool) → (if b then manual_stop else manual_stop) ≡ manual_stop
    same true = refl
    same false = refl

finish_scan-same :
    (at total : ℕ) (names : List (ℕ × Text)) (t u : Tally) (j k : ScanJob)
    → t ≡ u
    → j.started_at ≡ k.started_at
    → j.avg_latency ≡ k.avg_latency
    → j.last_error ≡ k.last_error
    → finish_scan at total names (t, j) ≡ finish_scan at total names (u, k)
unfolding finish_scan
finish_scan-same at total names t u j k e a b c = cc

-- The job at the end is that of its start but for what the end writes, and the note of a stop.
run_scan_job-eq :
    (started ended : ℕ) (hosts : List LibraryHost) (names : List (ℕ × Text)) (es : List ScanEvent)
    (job : ScanJob)
    → run_scan_job started ended (some hosts) names es job
      ≡ finish_scan ended (length hosts) names (
        tally_all (results es) no_tally,
        record (begin_scan started job) { last_error = note_after job.last_error es },
      )
unfolding run_scan_job begin_scan
run_scan_job-eq started ended hosts names es job =
    let start = begin_scan started job in
    let begun : IsUnderway job.last_error start start = record {
      started = refl;
      latency = refl;
      noted = refl;
      is_running_or_stopped = inl refl;
    } in
    let (e, u) =
      take_events-IsUnderway (length hosts) es no_tally job.last_error start start begun in
    let (t, j) = take_events (length hosts) es (no_tally, start) in
    finish_scan-same ended (length hosts) names t (tally_all (results es) no_tally) j
      (record start { last_error = note_after job.last_error es }) e u.started u.latency u.noted

-- Without the stops.
unfoldable pub unstopped : List ScanEvent → List ScanEvent
unstopped [] = []
unstopped (landed r ∷ es) = landed r ∷ unstopped es
unstopped (stop at ∷ es) = unstopped es

results-unstopped : (es : List ScanEvent) → results (unstopped es) ≡ results es
unfolding results unstopped
results-unstopped [] = refl
results-unstopped (landed r ∷ es) = ap (λ rs. r ∷ rs) (results-unstopped es)
results-unstopped (stop at ∷ es) = results-unstopped es

stops-unstopped : (es : List ScanEvent) → any is_stop (unstopped es) ≡ false
unfolding unstopped
stops-unstopped [] = refl
stops-unstopped (landed r ∷ es) = stops-unstopped es
stops-unstopped (stop at ∷ es) = stops-unstopped es

-- A run that is stopped ends as it would have ended without the stops, completed and with the same
-- counters, summary and times; of the stops only the note in `last_error` stays.
pub run_scan_job-stopped :
    (started ended : ℕ) (hosts : List LibraryHost) (names : List (ℕ × Text)) (es : List ScanEvent)
    (job : ScanJob)
    → let run =
        λ (events : List ScanEvent). run_scan_job started ended (some hosts) names events job in
      ((run es).status ≡ completed)
      × (run es ≡ record (run (unstopped es)) {
        last_error = if any is_stop es then manual_stop else job.last_error;
      })
unfolding note_after finish_scan
run_scan_job-stopped started ended hosts names es job =
    let note = if any is_stop es then manual_stop else job.last_error in
    let at_end = λ (rs : List ScanResult). finish_scan ended (length hosts) names (
      tally_all rs no_tally,
      record (begin_scan started job) { last_error = note_after job.last_error (unstopped es) },
    ) in
    let end = run_scan_job-eq started ended hosts names es job in
    let end' =
      run_scan_job-eq started ended hosts names (unstopped es) job
      ∙ ap at_end (results-unstopped es) in
    (
      ap (λ j. j.status) end,
      end ∙ sym (ap {A = ScanJob} (λ j. record j { last_error = note }) end'),
    )

-- The average of `n` numbers of microseconds with this sum, in hundredths of a millisecond and
-- rounded half up: of no numbers there is none.
abbrev pub IsAverage : ℕ → ℕ → Option ℕ → Type 0
IsAverage sum n none = n ≡ 0
IsAverage sum n (some v) = (10 * n * v ≤ sum + 5 * n) × (sum + 5 * n < 10 * n * (v + 1))

average_latency-IsAverage : (sum n : ℕ) → IsAverage sum n (average_latency sum n)
unfolding average_latency
average_latency-IsAverage sum n = elim (Bool-cases (nat_beq n 0)) [
  | inl e ↦ rw e ((nat_beq_iff n 0).0 e)
  | inr e ↦
      let q = (2 * sum + 10 * n) / (20 * n) in
      let some_n : 0 < 20 * n = ground (arith, e) in
      let low : 20 * n * q ≤ 2 * sum + 10 * n = mul-div-le (2 * sum + 10 * n) (20 * n) in
      let high : 2 * sum + 10 * n < 20 * n * (q + 1) = lt-mul-div-succ (2 * sum + 10 * n) some_n in
      rw e (omega (arith, low), omega (arith, high))
]

-- A run ends completed, with the counters of the results of its hosts and the average of their
-- latencies, rounded half up to hundredths of a millisecond, whatever the order in which they were
-- counted and whatever stops came between. Without a latency the summary has no average, and the job
-- keeps the one that it had.
pub run_scan_job-IsCounted :
    (started ended : ℕ) (hosts : List LibraryHost) (names : List (ℕ × Text)) (es : List ScanEvent)
    (job : ScanJob)
    → let out = run_scan_job started ended (some hosts) names es job in
      let rs = results es in
      (summary : ScanSummary) × (out.summary ≡ some summary)
      × IsCounted rs summary.tally
      × (out.status ≡ completed)
      × (out.processed_hosts ≡ length rs)
      × (out.success_hosts ≡ total (λ r. success_of r.status) rs)
      × (out.error_hosts ≡ total (λ r. error_of r.status) rs)
      × (out.finished_at ≡ some ended)
      × (out.suspicious_hosts ≡ total (λ r. is_suspicious_of r.status) rs)
      × (summary.total_hosts ≡ length hosts)
      × IsAverage
          (total (λ r. latency_of r.latency_us) rs)
          (total (λ r. sample_of r.latency_us) rs)
          summary.avg_latency
      × (out.avg_latency ≡ or_kept_latency job.avg_latency summary.avg_latency)
unfolding finish_scan summarize begin_scan
run_scan_job-IsCounted started ended hosts names es job =
    let end = run_scan_job-eq started ended hosts names es job in
    let t = tally_all (results es) no_tally in
    let counted = tally_all-IsCounted (results es) in
    (
      summarize (length hosts) names t,
      ap (λ j. j.summary) end,
      counted,
      ap (λ j. j.status) end,
      ap (λ j. j.processed_hosts) end ∙ counted.processed,
      ap (λ j. j.success_hosts) end ∙ counted.success_n,
      ap (λ j. j.error_hosts) end ∙ counted.error_n,
      ap (λ j. j.finished_at) end,
      ap (λ j. j.suspicious_hosts) end ∙ counted.suspicious_n,
      refl,
      subst
          (λ sum.
            IsAverage sum (total (λ r. sample_of r.latency_us) (results es))
              (average_latency t.latency_sum t.latency_cnt))
          counted.latency_sum
          (subst (λ n. IsAverage t.latency_sum n (average_latency t.latency_sum t.latency_cnt))
            counted.latency_cnt (average_latency-IsAverage t.latency_sum t.latency_cnt)),
      ap (λ j. j.avg_latency) end,
    )
