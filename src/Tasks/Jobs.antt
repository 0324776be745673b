-- ===== src/Tasks/Jobs.antt =====
-- internal/service/probe.go: `dispatchSingleToAgent`, `agentOnlineByNode` and `ApplyProbeJobResult`;
-- internal/bridge/bridge.go: `RequeueStale`. `publish` says whether the broker takes a job, which
-- is the client of MQTT; a time is a number of microseconds. No code makes a job for a batch, so the
-- branch of `ApplyProbeJobResult` for these is left out.
use dnsgolang.Base.{
  ℕ, ◌+◌, ◌*◌, suc, zero, Bool, true, false, ◌&&◌, Option, none, some, List, [], ◌∷◌, ◌++◌,
  if◌then◌else◌, nat_beq, ltb, leb, find, ◌==◌, text_eq, is_empty,
}
use dnsgolang.Base.Text.{Text, txt}
use dnsgolang.Scheduling.Nodes.{second}
use dnsgolang.Scheduling.Summary.{RegionStatus}
use dnsgolang.Tasks.Rows.{
  ProbeResult, ResultStatus, success, failed, RegionRow, JobStatus, queued, published, leased,
  completed, timeout, cancelled, JobStep, ProbeJob, Store, persist_region_result, refresh, find_row,
  region_status,
}

pub data AgentState : Type 0 where
  online offline busy disabled : AgentState

pub record ProbeAgent : Type 0 where
  pub agent_code : Text
  pub state : AgentState
  pub enabled : Bool
  pub last_seen_at : Option ℕ

abbrev pub is_up : AgentState → Bool
is_up online = true
is_up busy = true
is_up offline = false
is_up disabled = false

-- Whether the agent was seen within five minutes before `now`, or never yet.
abbrev pub seen_lately : ℕ → Option ℕ → Bool
seen_lately now none = true
seen_lately now (some at) = leb now (at + 300 * second)

unfoldable pub agent_online_by_node : ℕ → List ProbeAgent → Text → Option ProbeAgent
agent_online_by_node now agents agent_ref =
    if is_empty agent_ref
    then none
    else elim (find (λ a. a.agent_code == agent_ref && (a.enabled && is_up a.state)) agents) [
      | none ↦ none
      | some agent ↦ if seen_lately now agent.last_seen_at then some agent else none
    ]

-- What a dispatch reads besides the store: the nodes with the agent that each refers to, the
-- agents, the clock, the lease in seconds, and whether the broker takes a job.
pub record Remote : Type 0 where
  pub agent_ref : Text → Option Text
  pub agents : List ProbeAgent
  pub now : ℕ
  pub lease_seconds : ℕ
  pub publish : ProbeJob → Bool

unfoldable pub set_job : ℕ → (ProbeJob → ProbeJob) → List ProbeJob → List ProbeJob
set_job id f [] = []
set_job id f (j ∷ js) = (if nat_beq j.id id then f j else j) ∷ set_job id f js

-- The result, and the store with the job that was made.
unfoldable pub dispatch_single_to_agent : Remote → Text → Text → RegionRow → Store → Bool × Store
unfolding set_job
dispatch_single_to_agent env protocol target row s = elim (env.agent_ref row.region.node_code) [
  | none ↦ (false, s)
  | some agent_ref ↦ elim (agent_online_by_node env.now env.agents agent_ref) [
    | none ↦ (false, s)
    | some agent ↦
        let job : ProbeJob = record {
          id = s.next_job;
          agent_code = agent.agent_code;
          execution_region_id = some row.id;
          status = queued;
          retry_count = 0;
          lease_until = env.now + env.lease_seconds * second;
          last_error = [];
          steps =
              record {
                protocol = protocol;
                target = target;
                status = RegionStatus.pending;
                resolved_target = [];
                latency = none;
                error_code = [];
                error_message = [];
                detail = [];
              }
              ∷ [];
        } in
        if env.publish job
        then (
          true,
          record s {
            jobs = s.jobs ++ (record job { status = published } ∷ []);
            next_job = s.next_job + 1;
          },
        )
        else (false, record s { jobs = s.jobs ++ (job ∷ []); next_job = s.next_job + 1 })
  ]
]

-- `resolved_target` is the entry of the detail with that name, where it is a text.
pub record ResultStep : Type 0 where
  pub succeeded : Bool
  pub resolved_target : Text
  pub latency : Option ℕ
  pub error_code : Text
  pub error_message : Text
  pub detail : List (Text × Text)

abbrev pub status_of : Bool → ResultStatus
status_of succeeded = if succeeded then success else failed

-- The steps of the job take the results that were sent, as far as both go.
unfoldable pub fill_steps : List JobStep → List ResultStep → List JobStep
fill_steps [] results = []
fill_steps (s ∷ steps) [] = s ∷ steps
fill_steps (s ∷ steps) (r ∷ results) =
    record s {
      status = region_status (status_of r.succeeded);
      resolved_target = r.resolved_target;
      latency = r.latency;
      error_code = r.error_code;
      error_message = r.error_message;
      detail = r.detail;
    }
    ∷ fill_steps steps results

-- The result that is written to the row; its resolved target stays empty.
abbrev pub probe_result : ResultStep → ProbeResult
probe_result r = record {
  succeeded = r.succeeded;
  status = status_of r.succeeded;
  resolved_target = [];
  latency = r.latency;
  error_code = r.error_code;
  error_message = r.error_message;
  detail = r.detail;
}

abbrev pub first_protocol : List JobStep → Text
first_protocol [] = txt "dns"
first_protocol (s ∷ steps) = s.protocol

-- The first of the results goes to the row of the region, whose execution is summed up again.
unfoldable pub backfill : ℕ → ProbeJob → List ResultStep → Store → Store
backfill now job [] s = s
backfill now job (r ∷ results) s = elim job.execution_region_id [
  | none ↦ s
  | some id ↦ elim (find_row id s.rows) [
    | none ↦ s
    | some row ↦
        refresh now row.execution_id
          (persist_region_result id (first_protocol job.steps) (probe_result r) s)
  ]
]

abbrev pub is_done : JobStatus → Bool
is_done completed = true
is_done cancelled = true
is_done queued = false
is_done published = false
is_done leased = false
is_done failed = false
is_done timeout = false

abbrev pub find_job : ℕ → List ProbeJob → Option ProbeJob
find_job id jobs = find (λ j. nat_beq j.id id) jobs

abbrev pub complete_job : List ResultStep → ProbeJob → ProbeJob
complete_job results job = record job { status = completed; steps = fill_steps job.steps results }

-- `none` is the error for a job that does not exist.
unfoldable pub apply_probe_job_result : ℕ → ℕ → List ResultStep → Store → Option Store
unfolding set_job backfill
apply_probe_job_result now id results s = elim (find_job id s.jobs) [
  | none ↦ none
  | some job ↦
      if is_done job.status
      then some s
      else some
          (backfill now job results (record s { jobs = set_job id (complete_job results) s.jobs }))
]

abbrev pub is_out : JobStatus → Bool
is_out published = true
is_out leased = true
is_out queued = false
is_out completed = false
is_out failed = false
is_out timeout = false
is_out cancelled = false

-- A job that the query finds: it is out, its lease is over and its agent is enabled.
abbrev pub is_stale : Remote → ProbeJob → Bool
is_stale env j =
    is_out j.status
    && (ltb j.lease_until env.now && elim (find (λ a. a.agent_code == j.agent_code) env.agents) [
      | none ↦ false
      | some a ↦ a.enabled
    ])

-- The round for one stale job.
unfoldable pub requeue_job : Remote → ProbeJob → ProbeJob
requeue_job env j =
    if leb 3 j.retry_count
    then record j { status = failed; last_error = txt "lease_expired" }
    else if env.publish j
    then record j {
      retry_count = j.retry_count + 1;
      status = published;
      lease_until = env.now + env.lease_seconds * second;
    }
    else j

-- `LIMIT` jobs at most are found. Nothing comes between the query and the updates here: what does is
-- in Tasks/Raced.
unfoldable pub requeue_jobs : Remote → ℕ → List ProbeJob → List ProbeJob
unfolding requeue_job
requeue_jobs env zero jobs = jobs
requeue_jobs env (suc n) [] = []
requeue_jobs env (suc n) (j ∷ jobs) =
    let found = requeue_job env j ∷ requeue_jobs env n jobs in
    let passed = j ∷ requeue_jobs env (suc n) jobs in if is_stale env j then found else passed

unfoldable pub requeue_stale : Remote → Store → Store
unfolding requeue_jobs
requeue_stale env s = record s { jobs = requeue_jobs env 50 s.jobs }

-- A round for one job of a sweep that other events interrupt: the update acts on the row with the
-- job's id, whatever has become of it since the query.
abbrev pub give_up : ProbeJob → ProbeJob
give_up j = record j { status = failed; last_error = txt "lease_expired" }

abbrev pub publish_again : Remote → ProbeJob → ProbeJob
publish_again env j = record j {
  retry_count = j.retry_count + 1;
  status = published;
  lease_until = env.now + env.lease_seconds * second;
}

-- `copy` is the job as the query found it.
unfoldable pub requeue_round : Remote → ProbeJob → Store → Store
unfolding set_job
requeue_round env copy s =
    if leb 3 copy.retry_count
    then record s { jobs = set_job copy.id give_up s.jobs }
    else if env.publish copy
    then record s { jobs = set_job copy.id (publish_again env) s.jobs }
    else s
