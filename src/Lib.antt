-- ===== src/Lib.antt =====
-- The core logic of the DNS monitoring service: how the risks of a host are judged, which nodes
-- and regions execute a task, how the library of trusted domains is imported and built, how
-- a batch scan is read, run and stopped, how an execution of a task runs on local and remote probes,
-- and how the trusted hosts are scanned.
--
-- The parts and the files that model them, with the paths of the code from the repository's root:
--
-- Risk: internal/risk. Risk/Catalog is catalog.go: the fourteen risk types, their severities,
--   tiers and methods. Risk/Types, Risk/Detect and Risk/Engine are engine.go: the observation of
--   a host (`Observation`) is compared with its baseline (`List RecordBaseline`) under its
--   settings (`HostConfig`). Each test that `Evaluate` makes with a loop is a definition of
--   Risk/Detect (`record_deletion_hit`, `ns_name_hit`, `ns_ip_hit`, `divergence_hit`,
--   `latency_hit`, `rebind_hit`), and `evaluate` in Risk/Engine puts them together. The modules
--   below them (Detect/Records, Detect/Sets, Detect/Latency, Detect/Ttl, Detect/Divergence,
--   Engine/Laws, Engine/Spec) say what the tests decide.
-- Scheduling: internal/service/scheduling.go on the rows of internal/model/models.go.
--   Scheduling/Nodes has the rank of a node, `get_default_node` and `get_single_execution_node`;
--   Scheduling/Regions has `normalize_region_codes` and `default_region_codes`;
--   Scheduling/Summary has the rows that `buildExecution` creates and the status that
--   `refreshExecutionStatus` writes.
-- Trust: internal/service/trust.go on the rows of internal/model/trust.go. Trust/Manifest has
--   the types of a manifest and `normalize_manifest`, Trust/Manifest/Yaml the reader of the YAML
--   subset, Trust/Upgrade what an import does to a row that is already stored, Trust/Discovery
--   `parse_manifest` and the queries of a discovery, with the JSON reader as a parameter.
--   Trust/Review has the review of candidates (`review_host_candidates`). Trust/Build has the build
--   jobs, chunk by chunk from their checkpoint. The operations of the service that a job calls are
--   the record `Services`; messages and times of a job are left out.
-- Batch: internal/service/batch.go. Batch/Input has the input of a batch scan: the rows of a text
--   or file (`iter_batch_rows`) and their sorting and counting (`parse_batch_input`). The regular
--   expression of a domain is the parameter `matches`, the csv reader the parameter `read_csv`.
--   Batch/Options is `CleanBatchOptions`, on the values and the DNS options of Probing/Options; how
--   encoding/json gives a text back is the parameter `json`.
--   `RunBatchExecution` is in three files: Batch/Rows has the work items and the row that a probe
--   becomes (the probes are the parameter `Probes`), Batch/Run the workers and the writer as a step
--   relation `Step` on their shared state `Flight`, one step for each operation on the counters,
--   the channel and the buffer, and Batch/Finish what comes before and after (`begin_batch`,
--   `end_batch`), with `finish_batch_with_error`, `mark_batch_cancelled` and `request_batch_stop`.
--   Batch/Run/Totals, Counts, Held and Ends and Batch/Finish/Summary are proofs.
-- Auth: internal/auth/jwt.go: issuing, parsing and refreshing the token of a session. `sign` and
--   `verify` of the JWT library are parameters with one hypothesis, `verify-sign`.
-- Tasks: internal/service/tasks.go, internal/service/probe.go and internal/bridge/bridge.go. Tasks/Run
--   is `RunSingleExecution`: for each row of an execution Scheduling chooses the node, then the local
--   probe runs (its result is an argument) or Tasks/Jobs sends a job to a remote one
--   (`dispatch_single_to_agent`; whether the broker takes it is the parameter `publish`).
--   Tasks/Jobs has what happens to a job later, `apply_probe_job_result` and `requeue_stale`, and
--   Tasks/Events the sequences of these. Tasks/Create is the validation in `CreateTask`,
--   Tasks/Due the passes of `RunDueSchedules` over the tasks that repeat (the reader of cron
--   expressions is the parameter `next_run`). Tasks/Rows has the tables (`Store`) and the writes to
--   them, Tasks/Detail the names of the fields of a result. A run is one step: results that arrive
--   while its loop still goes are taken after it. A sweep is one step
--   too, or its rounds for single jobs (`requeue_round`) with other events between. The modules Raced,
--   Sent, Met, Kept, Settled, Answered,
--   Ended, Finished and Swept are proofs.
-- Probing: internal/engine/prober/dns.go. Probing/Options is `CleanDNSOptions`, whose answer is the
--   argument `clean_dns_options` of Tasks/Create; the scanners of package fmt and the list of public
--   suffixes are the parameter `Scanners`.
-- Scan: internal/service/scanner.go. Scan/Lines reads a line of an answer (`parse_rr_line` of
--   internal/service/trust.go). Scan/Watch is the observation of a host in `scanHost`: the plan of
--   queries, and how their answers are merged into a snapshot and the engine's `Observation`; Scan/Host
--   judges it by Risk and writes the result, with Scan/Host/Rows for the table of latest verdicts.
--   Scan/Tally and Scan/Run are `RunScanJob` and `RequestScanStop`: a run is the list of its events,
--   results in the order in which they are counted and stops in between. Scan/Jobs is
--   `CreateScanJob`, the query of a run, and `RunDueMonitorProfiles`. The answers of the DNS client
--   are arguments, and writes succeed but for that of the snapshot and the job.
--   Watch/Codes, Watch/Seen, Host/Latest, Host/Judged, Run/Sums, Run/Counted, Run/Stops, Run/Errors,
--   Jobs/Hosts and Jobs/Spaced are proofs.
--   Scan/Network asks the queries of a scan by the client of Client/Query.
-- Client: internal/engine/dnsclient/client.go. Client/Server has `split_server`, `detect_error_kind` and the
--   reading of lines, Client/Query `run_query`, transfers and `resolve_authoritative_server` over the
--   record `Network` (the exchange of a message, a transfer, the tables of the DNS library), and
--   Client/Trace `trace_resolution_path`, by recursion on the rounds that are left. Query/Answers and
--   Trace/Walk are proofs.
-- Board: internal/service/riskboard.go, lines up to the classification of probe results
--   (`protocol_anomaly`); measurements are numbers of thousandths.
-- Base: what the parts share: Boolean tests, lists, equality as an instance, integers, texts,
--   sets as lists of keys, and sorting.
--
-- The parts meet in the database. A trusted domain and its hosts, imported by Trust, are the
-- baseline and settings that Risk reads; Scheduling chooses who makes the observations.
--
-- How the code is read. A text is the list of its bytes; `strings.ToLower` and `strings.TrimSpace`
-- are modelled on ASCII. A Go map that is used as a set is the list of its keys, and a map whose
-- entries are ranged over is the list of its entries. A time is a number of microseconds, a
-- latency too; a ratio is a number of hundredths of a percent, without the rounding of a float.
-- An index out of range is `none`, a Go `error` a constructor of a result type. Queries of the
-- database are arguments (the rows that they found, or their error), and what is written is the
-- result; a write whose error the code drops succeeds. `net.ParseIP` is the parameter `parse_ip`. `sort.Slice` is an insertion sort; the orders
-- that are passed to it are proved to decide the first element. All loops run over slices, or
-- count up to a number of chunks, so every definition is by structural recursion, without fuel.
--
-- Not modelled: SQL, the network (DNS, ping, HTTP, traceroute, MQTT, Redis), the web framework,
-- hashing, random numbers and the rendering of reports; further the
-- aggregates of the risk board and the registration of probe agents. Parts of tables that
-- no operation here reads (names of jobs, payloads, times of creation) are left out.
pub mod Auth
pub mod Base
pub mod Batch
pub mod Board
pub mod Client
pub mod Probing
pub mod Risk
pub mod Scan
pub mod Scheduling
pub mod Tasks
pub mod Trust
