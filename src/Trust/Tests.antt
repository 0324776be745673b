-- ===== src/Trust/Tests.antt =====
-- internal/service/trust.go: the theorems of the import at a manifest of two domains.
use dnsgolang.Base.{
  text_eq, ℕ, ◌+◌, drop, ◌≡◌, refl, true, false, none, some, List, [], ◌∷◌, map, arith, length, All,
  text_beq, inr,
}
use dnsgolang.Base.Text.{
  Text, txt, join, lower, trim, trim_left, trim_right, trim_space, split, has_prefix,
}
use dnsgolang.Trust.Review.{
  CandidateStatus, draft, approved, rejected, CandidateRecord, Library, baseline_of, update_host,
  set_status, batch_status, refresh_candidate_batch_status, approve_records, review_records,
  review_host_candidates,
}
use dnsgolang.Trust.Review.Approved.{IsApproved, review_host_candidates-IsApproved}
use dnsgolang.Trust.Manifest.{
  ManifestItem, ok, normalize_fqdn, normalize_item, normalize_from, normalize_manifest, kept_hosts,
  with_apex,
}
use dnsgolang.Trust.Manifest.Normal.{IsNormal, IsKnown, normalize_manifest-IsNormal}
use dnsgolang.Trust.Manifest.Yaml.{Reader, new_item, new_host, parse_yaml_subset_manifest}
use dnsgolang.Trust.Manifest.Bare.{entry, parse_yaml_subset_manifest-bare}
use dnsgolang.Trust.Build.{
  Services, Run, ongoing, running, total_chunks, slice, chunk, build_chunk_manifest, approve,
  discover_and_approve, checkpoint, run_chunk, run_chunks, begin, limited, read_domain_file,
  run_trust_build_job, domain_lines,
}
use dnsgolang.Trust.Build.Chunks.{joined, joined-rest}
use dnsgolang.Trust.Build.Resume.{run_trust_build_job-resumed}
use dnsgolang.Trust.Upgrade.{TrustDomain, TrustHost}

parse_yaml_subset_manifest-bare_example :
    parse_yaml_subset_manifest
      (join (10 ∷ []) (map entry (txt "example.com" ∷ txt "example.org" ∷ [])))
    ≡ ok (map new_item (txt "example.com" ∷ txt "example.org" ∷ []))
parse_yaml_subset_manifest-bare_example =
    parse_yaml_subset_manifest-bare (txt "example.com") (txt "example.org" ∷ [])
      ((refl, refl, refl), ((refl, refl, refl), tt))

abbrev in_key_hosts : Reader
in_key_hosts = record {
  items = [];
  current = some (new_item (txt "example.com"));
  current_host = none;
  in_hosts = true;
}

abbrev listed : List ManifestItem
listed =
    record (new_item (txt "Example.com.")) { key_hosts = new_host (txt "www.example.com") ∷ [] }
    ∷ []

abbrev accepted : List ManifestItem
accepted =
    record (new_item (txt "example.com")) {
      environment = txt "prod";
      key_hosts =
          record (new_host (txt "example.com")) { notes = txt "manifest auto apex" }
          ∷ new_host (txt "www.example.com")
          ∷ [];
    }
    ∷ []

normalized : normalize_manifest listed ≡ ok (accepted, txt "prod")
unfolding normalize_manifest normalize_from normalize_item kept_hosts with_apex normalize_fqdn
    text_beq lower trim trim_left trim_right trim_space
normalized = refl

normalize_manifest-IsNormal_example :
    (length accepted ≡ length listed) × All (IsNormal (txt "prod")) accepted × IsKnown (txt "prod")
normalize_manifest-IsNormal_example =
    normalize_manifest-IsNormal listed accepted (txt "prod") normalized

abbrev stored : TrustDomain
stored = record { owner = []; importance = txt "medium"; notes = txt "kept"; enabled = false }

abbrev given : ManifestItem
given = record (new_item (txt "example.com")) { owner = txt "ops"; notes = txt "lost" }

abbrev stored_host : TrustHost
stored_host = record { notes = []; enabled = false }

-- A database that only counts its imports; every review approves two hosts.
abbrev counting : Services ℕ
counting = record {
  import_manifest = λ items w. (some (length items, length items), w + 1);
  import_error = λ n w. [];
  discover = λ w. (some (record { candidate_count = 5; batch_id = some w }), w);
  bulk_review = λ id w. (some 2, w);
  count_hosts = λ w. (w, 0);
  row_readable = λ w. true;
}

abbrev five_lines : List Text
five_lines =
    txt "a.example" ∷ txt "b.example" ∷ txt "c.example" ∷ txt "d.example" ∷ txt "e.example" ∷ []

abbrev fresh : Run ℕ
fresh = record {
  job = record {
    status = running;
    chunk_size = 2;
    limit_count = none;
    import_only = false;
    auto_approve = true;
    processed_chunks = 0;
    current_chunk = 0;
    total_chunks_of = 3;
    imported_domains = 0;
    imported_hosts = 0;
    discovered_hosts = 0;
    candidate_records = 0;
    approved_hosts = 0;
    trusted_hosts = 0;
    draft_hosts = 0;
    last_error = [];
  };
  world = 0;
}

abbrev after_one : Run ℕ
after_one = record {
  job = record fresh.job {
    processed_chunks = 1;
    current_chunk = 1;
    imported_domains = 2;
    imported_hosts = 2;
    candidate_records = 5;
    approved_hosts = 2;
    trusted_hosts = 1;
  };
  world = 1;
}

one_round : run_chunks counting five_lines 1 0 fresh ≡ ongoing after_one
unfolding run_chunks run_chunk chunk slice build_chunk_manifest normalize_fqdn lower trim trim_left
    trim_right trim_space discover_and_approve approve checkpoint
one_round = refl

abbrev content : Text
content = join (10 ∷ []) five_lines

file_lines : read_domain_file content ≡ five_lines
unfolding read_domain_file domain_lines join split trim trim_left trim_right trim_space
    normalize_fqdn lower has_prefix
file_lines = refl

one_round_of_file :
    run_chunks counting
      (limited none (read_domain_file content))
      1
      0
      (record fresh { job = begin counting (limited none (read_domain_file content)) fresh.job })
    ≡ ongoing after_one
unfolding limited begin total_chunks
one_round_of_file = rw file_lines one_round

run_trust_build_job-resumed_example :
    run_trust_build_job counting (inr content) after_one
    ≡ run_trust_build_job counting (inr content) fresh
unfolding limited total_chunks
run_trust_build_job-resumed_example =
    run_trust_build_job-resumed counting content 1 fresh after_one one_round_of_file
      (rw file_lines (omega arith))

joined-rest_example : joined 2 five_lines 2 1 ≡ some (drop 2 five_lines)
unfolding total_chunks
joined-rest_example = joined-rest 2 five_lines 2 1 (omega arith) refl

abbrev candidate : ℕ → CandidateStatus → CandidateRecord
candidate id status = record {
  id = id;
  batch_id = 3;
  host_id = 8;
  section = txt "answer";
  rr_name = txt "a.b";
  rr_type = txt "A";
  rr_value = txt "1.2.3.4";
  ttl_min = some 60;
  ttl_max = none;
  is_required = true;
  status = status;
}

abbrev library : Library
library = record {
  hosts =
      record {
        id = 8;
        environment = txt "prod";
        baseline_status = txt "candidate";
        baseline_source = [];
      }
      ∷ [];
  batches = record { id = 3; status = draft; approved_by = none } ∷ [];
  records = candidate 1 draft ∷ candidate 2 rejected ∷ [];
  baselines = baseline_of 9 (candidate 5 draft) ∷ [];
}

abbrev trusted : Library
trusted = record library {
  hosts = update_host 8 library.hosts;
  batches = record { id = 3; status = approved; approved_by = some 4 } ∷ [];
  records = candidate 1 approved ∷ candidate 2 rejected ∷ [];
  baselines = baseline_of 9 (candidate 5 draft) ∷ baseline_of 8 (candidate 1 draft) ∷ [];
}

review_host_candidates-IsApproved_example : IsApproved 3 8 library 1 trusted
unfolding review_host_candidates review_records approve_records refresh_candidate_batch_status
    batch_status set_status baseline_of update_host
review_host_candidates-IsApproved_example =
    review_host_candidates-IsApproved 8 3 4 1 true library trusted refl
