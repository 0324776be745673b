-- ===== src/Trust/Build.antt =====
-- internal/service/trust.go: the build jobs. A job reads a file of domains, cuts it into chunks,
-- and imports, discovers and approves one chunk after another; `processed_chunks` is the
-- checkpoint from which the job continues when it is run again.
pub mod Chunks
pub mod Resume
use dnsgolang.Base.{
  ℕ, suc, zero, ◌+◌, ◌-◌, ◌*◌, ◌/◌, Bool, true, false, not, ◌&&◌, ◌||◌, Option, none, some, List,
  [], ◌∷◌, if◌then◌else◌, leb, ltb, length, take, drop, is_empty, ◌⊎◌, inl, inr,
}
use dnsgolang.Base.Text.{Text, txt, trim_space, has_prefix, split}
use dnsgolang.Trust.Manifest.{ManifestItem, normalize_fqdn, env_prod}
use dnsgolang.Trust.Manifest.Yaml.{new_item}

-- The loop of `readDomainFile` over the lines of the file.
unfoldable pub domain_lines : List Text → List Text
domain_lines [] = []
domain_lines (raw ∷ raws) =
    let line = trim_space raw in
    let rest = domain_lines raws in
    if is_empty line || has_prefix (txt "#") line then rest else line ∷ rest

unfoldable pub read_domain_file : Text → List Text
unfolding domain_lines
read_domain_file content = domain_lines (split 10 content)

unfoldable pub limited : Option ℕ → List Text → List Text
limited none lines = lines
limited (some n) lines = if ltb 0 n && ltb n (length lines) then take n lines else lines

unfoldable pub total_chunks : ℕ → List Text → ℕ
total_chunks size lines = (length lines + size - 1) / size

-- `xs[lo:hi]`; `none` is Go's panic for bounds out of range.
unfoldable pub slice : ℕ → ℕ → List Text → Option (List Text)
slice lo hi xs =
    if leb lo hi && leb hi (length xs) then some (take (hi - lo) (drop lo xs)) else none

abbrev pub min : ℕ → ℕ → ℕ
min a b = if leb a b then a else b

unfoldable pub chunk : ℕ → List Text → ℕ → Option (List Text)
unfolding slice
chunk size lines i = slice (i * size) (min ((i + 1) * size) (length lines)) lines

-- `buildChunkManifest` before the items are written as JSON.
unfoldable pub build_chunk_manifest : List Text → List ManifestItem
build_chunk_manifest [] = []
build_chunk_manifest (d ∷ ds) =
    let name = normalize_fqdn d in
    let rest = build_chunk_manifest ds in
    if is_empty name then rest else record (new_item name) { environment = env_prod } ∷ rest

pub data BuildStatus : Type 0 where
  pending running completed failed : BuildStatus

pub record BuildJob : Type 0 where
  pub status : BuildStatus
  pub chunk_size : ℕ
  pub limit_count : Option ℕ
  pub import_only : Bool
  pub auto_approve : Bool
  pub processed_chunks : ℕ
  pub current_chunk : ℕ
  pub total_chunks_of : ℕ
  pub imported_domains : ℕ
  pub imported_hosts : ℕ
  pub discovered_hosts : ℕ
  pub candidate_records : ℕ
  pub approved_hosts : ℕ
  pub trusted_hosts : ℕ
  pub draft_hosts : ℕ
  pub last_error : Text

-- What a discovery that succeeds reports, as far as the job reads it.
pub record Discovered : Type 0 where
  pub candidate_count : ℕ
  pub batch_id : Option ℕ

-- The operations of the service that a job calls, each on the state of the database: the import
-- (the numbers of domains and hosts that were created, or the message of the error), the
-- discovery, the review of a batch (the number of hosts), the counts of trusted and other hosts,
-- and whether the job's row can be read again.
pub record Services (W : Type 0) : Type 0 where
  pub import_manifest : List ManifestItem → W → Option (ℕ × ℕ) × W
  pub import_error : ℕ → W → Text
  pub discover : W → Option Discovered × W
  pub bulk_review : ℕ → W → Option ℕ × W
  pub count_hosts : W → ℕ × ℕ
  pub row_readable : W → Bool

pub record Run (W : Type 0) : Type 0 where
  pub job : BuildJob
  pub world : W

-- Where a run stands: between two chunks, after `finishBuildJob`, returned with the error of the
-- database, or in a panic.
pub data Progress (W : Type 0) : Type 0 where
  ongoing finished unreadable : Run W → Progress W
  panicked : Progress W

module _ {W : Type 0} where
  -- What follows a step that neither returned nor panicked.
  abbrev pub and_then : Progress W → (Run W → Progress W) → Progress W
  and_then (ongoing s) next = next s
  and_then (finished s) next = finished s
  and_then (unreadable s) next = unreadable s
  and_then panicked next = panicked

module _ {W : Type 0} (services : Services W) where
  -- The candidates of a discovery, and the hosts that the review of its batch approves.
  unfoldable pub approve : Discovered → W → (ℕ × ℕ) × W
  approve d w = elim d.batch_id [
    | none ↦ ((d.candidate_count, 0), w)
    | some id ↦
        let (outcome, w') = services.bulk_review id w in
        ((d.candidate_count, elim outcome [ none ↦ 0 | some hosts ↦ hosts ]), w')
  ]

  -- The candidates, and the hosts approved, of one chunk.
  unfoldable pub discover_and_approve : BuildJob → W → (ℕ × ℕ) × W
  discover_and_approve job w =
      let (outcome, w') = services.discover w in
      if job.import_only then ((0, 0), w) else elim outcome [
        | none ↦ ((0, 0), w')
        | some d ↦ if job.auto_approve then approve d w' else ((d.candidate_count, 0), w')
      ]

  -- The update of the job's row at the end of a chunk.
  unfoldable pub checkpoint : ℕ → ℕ × ℕ → ℕ × ℕ → W → BuildJob → BuildJob
  checkpoint i imported found w job = record job {
    processed_chunks = i + 1;
    current_chunk = i + 1;
    imported_domains = job.imported_domains + imported.0;
    imported_hosts = job.imported_hosts + imported.1;
    discovered_hosts = job.discovered_hosts + 0;
    candidate_records = job.candidate_records + found.0;
    approved_hosts = job.approved_hosts + found.1;
    trusted_hosts = (services.count_hosts w).0;
    draft_hosts = (services.count_hosts w).1;
  }

  unfoldable pub finish_build_job : BuildStatus → Text → BuildJob → BuildJob
  finish_build_job status message job = record job { status = status; last_error = message }

  -- The body of the loop, for chunk `i`.
  unfoldable pub run_chunk : List Text → ℕ → Run W → Progress W
  unfolding checkpoint finish_build_job
  run_chunk lines i r = elim (chunk r.job.chunk_size lines i) [
    | none ↦ panicked
    | some part ↦
        let (outcome, w) = services.import_manifest (build_chunk_manifest part) r.world in
        let (found, w') = discover_and_approve r.job w in
        elim outcome [
          | none ↦ finished (record {
            job = finish_build_job failed (services.import_error (i + 1) w) r.job;
            world = w;
          })
          | some imported ↦
              let next : Run W = record {
                job = checkpoint i imported found w' r.job;
                world = w';
              } in
              if services.row_readable w' then ongoing next else unreadable next
        ]
  ]

  -- `n` rounds of the loop from chunk `i`.
  unfoldable pub run_chunks : List Text → ℕ → ℕ → Run W → Progress W
  run_chunks lines zero i r = ongoing r
  run_chunks lines (suc n) i r = and_then (run_chunk lines i r) (run_chunks lines n (i + 1))

  -- What is written when the job starts, for a file with these lines.
  unfoldable pub begin : List Text → BuildJob → BuildJob
  begin lines job = record job {
    status = running;
    current_chunk = job.processed_chunks;
    total_chunks_of = total_chunks job.chunk_size lines;
  }

  -- What is written after the last chunk.
  unfoldable pub complete : Run W → Progress W
  unfolding finish_build_job
  complete s = finished (record s { job = finish_build_job completed [] s.job })

  -- The loop from the checkpoint to the last chunk.
  unfoldable pub run_lines : List Text → Run W → Progress W
  unfolding run_chunks complete
  run_lines lines r =
      let start = r.job.processed_chunks in
      and_then (run_chunks lines (total_chunks r.job.chunk_size lines - start) start r) complete

  -- The file is its content, or the message of the error.
  unfoldable pub run_trust_build_job : Text ⊎ Text → Run W → Progress W
  unfolding finish_build_job begin run_lines
  run_trust_build_job (inl message) r = finished (record r {
    job =
        finish_build_job failed message
          (record r.job { status = running; current_chunk = r.job.processed_chunks });
  })
  run_trust_build_job (inr content) r =
      let lines = limited r.job.limit_count (read_domain_file content) in
      run_lines lines (record r { job = begin lines r.job })
