-- ===== src/Tasks/Tests.antt =====
-- The theorems on executions at one execution of two regions, one of them with a remote probe.
use dnsgolang.Base.{
  ℕ, ◌≡◌, refl, true, false, Option, none, some, List, [], ◌∷◌, any, arith, if◌then◌else◌, text_beq,
  text_eq, pos, map, ◌==◌,
}
use dnsgolang.Base.Text.{Text, txt}
use dnsgolang.Scheduling.Types.{Transport, local, mqtt, ok, err}
use dnsgolang.Scheduling.Nodes.{get_single_execution_node, single_pool}
use dnsgolang.Scheduling.Summary.{
  ExecutionRegion, Updates, running, is_open, refresh_execution_status,
}
use dnsgolang.Scheduling.Summary
use dnsgolang.Tasks.Rows.{
  RegionRow, ProbeResult, ResultStatus, JobStatus, ProbeJob, Store, failed, update_row, settled_row,
  persist_region_result, refresh,
}
use dnsgolang.Tasks.Jobs.{
  ProbeAgent, Remote, ResultStep, dispatch_single_to_agent, agent_online_by_node, find_job, set_job,
  complete_job, publish_again, requeue_round, fill_steps, backfill, apply_probe_job_result,
  requeue_job, requeue_jobs, requeue_stale, is_out,
}
use dnsgolang.Tasks.Jobs
use dnsgolang.Tasks.Run.{Visit, RunTask, begin_row, run_row, run_rows, run_single_execution}
use dnsgolang.Tasks.Events.{Event, result, sweep, handle_all}
use dnsgolang.Tasks.Settled.{IsSummed, IsSummed-handle_all}
use dnsgolang.Tasks.Answered.{answers}
use dnsgolang.Tasks.Ended.{IsEnded}
use dnsgolang.Tasks.Finished.{run_single_execution-IsEnded}
use dnsgolang.Tasks.Raced.{requeue_round-completed}
use dnsgolang.Tasks.Swept.{sweeps-running}

abbrev region : Text → Text → Option Transport → ExecutionRegion
region code node_code transport = record {
  region_code = code;
  region_name = code;
  map_lng = pos 0;
  map_lat = pos 0;
  node_code = node_code;
  node_name = node_code;
  node_transport = transport;
  status = Summary.RegionStatus.pending;
  success = false;
}

abbrev row : ℕ → ExecutionRegion → RegionRow
row id r = record {
  id = id;
  execution_id = 9;
  region = r;
  resolved_target = [];
  latency = none;
  error_code = [];
  error_message = [];
}

abbrev start : Store
start = record {
  rows =
      row 1 (region (txt "e") (txt "p") (some mqtt))
      ∷ row 2 (region (txt "g") (txt "l") (some local))
      ∷ [];
  details = λ id. none;
  summaries = λ id. none;
  jobs = [];
  next_job = 7;
}

abbrev probe : ProbeAgent
probe = record {
  agent_code = txt "a";
  state = Jobs.AgentState.online;
  enabled = true;
  last_seen_at = none;
}

abbrev remote : ℕ → Remote
remote now = record {
  agent_ref = λ code. if code == txt "p" then some (txt "a") else none;
  agents = probe ∷ [];
  now = now;
  lease_seconds = 60;
  publish = λ job. true;
}

abbrev found : ProbeResult
found = record {
  succeeded = true;
  status = ResultStatus.success;
  resolved_target = txt "1";
  latency = some 5;
  error_code = [];
  error_message = [];
  detail = [];
}

abbrev visit : RegionRow → Visit
visit r = record {
  schedulable = err [];
  reads = record { schedulable = ok []; first_of_all = err []; ref = 100 };
  remote = remote 100;
  local_result = found;
}

abbrev task : RunTask
task = record { protocol = txt "dns"; target = txt "x"; mode = txt "remote" }

abbrev step : ResultStep
step = record {
  succeeded = true;
  resolved_target = [];
  latency = some 9;
  error_code = [];
  error_message = [];
  detail = [];
}

abbrev later : List Event
later = sweep (remote 90000000) ∷ result 95000000 7 (step ∷ []) ∷ []

abbrev ran : Store
ran = run_single_execution task visit 200 9 start

answered : (k : ℕ) (job : ProbeJob) → find_job k ran.jobs ≡ some job → any (answers k) later ≡ true
unfolding run_single_execution run_rows run_row begin_row dispatch_single_to_agent
    agent_online_by_node get_single_execution_node single_pool persist_region_result refresh
    update_row settled_row text_beq
answered k job f = ground (arith, f)

run_single_execution-IsEnded_example :
    IsEnded 9 (handle_all later (run_single_execution task visit 200 9 start))
run_single_execution-IsEnded_example =
    run_single_execution-IsEnded task visit 200 9 later start (refl, (refl, tt)) refl refl
      (λ k job le f st. answered k job f)

abbrev lost : ProbeJob
lost = record {
  id = 7;
  agent_code = txt "a";
  execution_region_id = some 1;
  status = failed;
  retry_count = 3;
  lease_until = 50;
  last_error = txt "lease_expired";
  steps = [];
}

-- Its lease is over, and the broker takes it again.
abbrev stale : ProbeJob
stale = record lost { status = JobStatus.published; retry_count = 1; last_error = [] }

requeue_round-completed_example :
    let done = complete_job (step ∷ []) stale in
    (answered : Store) × (apply_probe_job_result 100 7
        (step ∷ [])
        (record start { jobs = stale ∷ [] })
      ≡ some answered)
    × (find_job 7 answered.jobs ≡ some done)
    × (find_job 7 (requeue_round (remote 90) stale answered).jobs
        ≡ some (publish_again (remote 90) done))
    × ((requeue_round (remote 90) stale answered).rows ≡ answered.rows)
unfolding text_beq
requeue_round-completed_example =
    requeue_round-completed (remote 90) 100 7 stale (step ∷ []) (record start { jobs = stale ∷ [] })
      refl refl refl

-- The summary of the execution says that both rows are open.
abbrev waiting : Store
waiting = refresh 100 9 (record start { jobs = lost ∷ [] })

sweeps-running_example :
    let s' = handle_all (map sweep (remote 200 ∷ remote 300 ∷ [])) waiting in
    (find_job 7 s'.jobs ≡ some lost)
    × (s'.rows ≡ waiting.rows)
    × (u : Updates) × (s'.summaries 9 ≡ some u)
    × (u.status ≡ running)
unfolding refresh
sweeps-running_example =
    sweeps-running (remote 200 ∷ remote 300 ∷ []) 9 7 lost waiting refl refl (100, refl) refl

IsSummed-handle_all_example : IsSummed 9 (handle_all later waiting)
unfolding refresh
IsSummed-handle_all_example = IsSummed-handle_all 9 later waiting (refl, (refl, tt)) (100, refl)
