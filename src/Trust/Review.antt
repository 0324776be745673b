-- ===== src/Trust/Review.antt =====
-- internal/service/trust.go: the review of candidates (`ReviewHostCandidates`,
-- `refreshCandidateBatchStatus`). A rejected write of the baselines is an argument; the
-- deletion and the updates, whose errors the code drops, succeed. The hash of a record, the note and
-- the times of a review are left out.
pub mod Approved
use dnsgolang.Base.{
  ℕ, ◌≡◌, refl, sym, ap, ◌∙◌, inl, inr, Bool, true, false, not, ◌&&◌, ◌||◌, Option, none, some,
  List, [], ◌∷◌, ◌++◌, map, keep, any, if◌then◌else◌, is_empty, nat_beq, nat_eq, nat_beq_iff,
  length, arith, Bool-cases, ◌==◌, text_eq, find,
}
use dnsgolang.Base.Text.{Text, txt}
use dnsgolang.Base.Sets.{has}

pub data CandidateStatus : Type 0 where
  draft approved rejected : CandidateStatus

pub record CandidateRecord : Type 0 where
  pub id : ℕ
  pub batch_id : ℕ
  pub host_id : ℕ
  pub section : Text
  pub rr_name : Text
  pub rr_type : Text
  pub rr_value : Text
  pub ttl_min : Option ℕ
  pub ttl_max : Option ℕ
  pub is_required : Bool
  pub status : CandidateStatus

pub record Baseline : Type 0 where
  pub host_id : ℕ
  pub section : Text
  pub rr_name : Text
  pub rr_type : Text
  pub rr_value : Text
  pub ttl_min : Option ℕ
  pub ttl_max : Option ℕ
  pub is_required : Bool

pub record ReviewedHost : Type 0 where
  pub id : ℕ
  pub environment : Text
  pub baseline_status : Text
  pub baseline_source : Text

pub record CandidateBatch : Type 0 where
  pub id : ℕ
  pub status : CandidateStatus
  pub approved_by : Option ℕ

-- The tables of a review.
pub record Library : Type 0 where
  pub hosts : List ReviewedHost
  pub batches : List CandidateBatch
  pub records : List CandidateRecord
  pub baselines : List Baseline

pub data Review : Type 0 where
  no_host no_batch nothing_to_review : Review
  -- The old baselines are gone, the new ones were not written.
  write_failed : Library → Review
  reviewed : (count : ℕ) → Library → Review

abbrev pub is_draft : CandidateStatus → Bool
is_draft draft = true
is_draft approved = false
is_draft rejected = false

abbrev pub is_approved : CandidateStatus → Bool
is_approved approved = true
is_approved draft = false
is_approved rejected = false

abbrev pub awaits : ℕ → ℕ → CandidateRecord → Bool
awaits batch_id host_id r =
    is_draft r.status && (nat_beq r.batch_id batch_id && nat_beq r.host_id host_id)

unfoldable pub baseline_of : ℕ → CandidateRecord → Baseline
baseline_of host_id r = record {
  host_id = host_id;
  section = r.section;
  rr_name = r.rr_name;
  rr_type = r.rr_type;
  rr_value = r.rr_value;
  ttl_min = r.ttl_min;
  ttl_max = r.ttl_max;
  is_required = r.is_required;
}

abbrev pub trust_host : ReviewedHost → ReviewedHost
trust_host h = record h {
  baseline_status = txt "trusted";
  baseline_source = if h.environment == txt "prod" then txt "manual" else h.baseline_source;
}

unfoldable pub update_host : ℕ → List ReviewedHost → List ReviewedHost
update_host id hosts = map (λ h. if nat_beq h.id id then trust_host h else h) hosts

unfoldable pub set_status : List ℕ → CandidateStatus → List CandidateRecord → List CandidateRecord
set_status ids status [] = []
set_status ids status (r ∷ rs) =
    (if has r.id ids then record r { status = status } else r) ∷ set_status ids status rs

abbrev pub others : ℕ → List Baseline → List Baseline
others host_id baselines = keep (λ b. not (nat_beq b.host_id host_id)) baselines

-- The status of a batch by the statuses of its records.
unfoldable pub batch_status : List CandidateRecord → CandidateStatus
batch_status records =
    if is_empty records
    then draft
    else if any (λ r. is_draft r.status) records
    then draft
    else if any (λ r. is_approved r.status) records
    then approved
    else rejected

unfoldable pub refresh_candidate_batch_status : ℕ → ℕ → Bool → Library → Library
unfolding batch_status
refresh_candidate_batch_status batch_id reviewer approve s =
    let status = batch_status (keep (λ r. nat_beq r.batch_id batch_id) s.records) in
    let update = λ (b : CandidateBatch).
      let b' : CandidateBatch = record b {
        status = status;
        approved_by = if is_approved status && approve then some reviewer else b.approved_by;
      } in
      b' in
    record s { batches = map (λ b. if nat_beq b.id batch_id then update b else b) s.batches }

-- The changes of a review that goes on, for the records that await it.
unfoldable pub approve_records : Bool → ℕ → List CandidateRecord → Library → Review
unfolding baseline_of update_host set_status
approve_records accepted host_id found s =
    let emptied : Library = record s { baselines = others host_id s.baselines } in
    if not accepted
    then write_failed emptied
    else reviewed (length found) (record emptied {
      baselines = others host_id s.baselines ++ map (baseline_of host_id) found;
      hosts = update_host host_id s.hosts;
      records = set_status (map (λ r. r.id) found) approved s.records;
    })

unfoldable pub review_records : Bool → Bool → ℕ → List CandidateRecord → Library → Review
unfolding approve_records
review_records accepted approve host_id found s =
    if approve
    then approve_records accepted host_id found s
    else reviewed (length found)
        (record s { records = set_status (map (λ r. r.id) found) rejected s.records })

abbrev pub refreshed : ℕ → ℕ → Bool → Bool → Review → Review
refreshed batch_id reviewer approve refresh_batch no_host = no_host
refreshed batch_id reviewer approve refresh_batch no_batch = no_batch
refreshed batch_id reviewer approve refresh_batch nothing_to_review = nothing_to_review
refreshed batch_id reviewer approve refresh_batch (write_failed s) = write_failed s
refreshed batch_id reviewer approve refresh_batch (reviewed n s) =
    reviewed n
      (if refresh_batch then refresh_candidate_batch_status batch_id reviewer approve s else s)

unfoldable pub review_host_candidates : Bool → ℕ → ℕ → ℕ → Bool → Bool → Library → Review
unfolding review_records refresh_candidate_batch_status
review_host_candidates accepted host_id batch_id reviewer approve refresh_batch s =
    let found = keep (awaits batch_id host_id) s.records in
    if not (any (λ h. nat_beq h.id host_id) s.hosts)
    then no_host
    else if not (any (λ b. nat_beq b.id batch_id) s.batches)
    then no_batch
    else if is_empty found
    then nothing_to_review
    else refreshed batch_id reviewer approve refresh_batch
        (review_records accepted approve host_id found s)
