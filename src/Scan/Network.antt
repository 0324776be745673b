-- ===== src/Scan/Network.antt =====
-- internal/service/scanner.go: the queries of `scanHost`, made by the DNS client of Client/Query. During a
-- scan the network answers the same question in the same way.
use dnsgolang.Base.{
  ℕ, ◌≡◌, refl, true, false, not, ◌&&◌, ◌||◌, Option, some, List, ◌++◌, map, ◌==◌, text_eq,
  is_empty, Bool-cases, text_beq, inl, inr, [], ◌∷◌,
}
use dnsgolang.Base.Sets.{has}
use dnsgolang.Base.Text.{Text, txt}
use dnsgolang.Client.Query.{Spec, Question, answered, Network, ClientResult, run_query}
use dnsgolang.Client.Query.Answers.{IsGraded, kinds, run_query-IsGraded}
use dnsgolang.Risk.Catalog.{risk_eq, unreach, no_service, refused}
use dnsgolang.Risk.Detect.{primary_expected}
use dnsgolang.Risk.Types.{IpTraits}
use dnsgolang.Scan.Host.{LibraryHost, HostReads, HostScan, scan_host}
use dnsgolang.Scan.Host.Judged.{scan_host-availability}
use dnsgolang.Scan.Host.Rows.{VerdictRow}
use dnsgolang.Scan.Watch.{QueryResult, Answers, scan_plan}
use dnsgolang.Scan.Watch.Codes.{failure_code, first_kind}
use dnsgolang.Trust.Discovery.{QueryStep}

-- What the scan reads of a result.
unfoldable pub query_result : ClientResult → QueryResult
query_result r = record {
  rcode = r.rcode;
  error_kind = r.error_kind;
  latency_us = r.latency_us;
  answer = r.answer;
  authority = r.authority;
  additional = r.additional;
}

unfoldable pub step_spec : Text → ℕ → QueryStep → Spec
step_spec resolver timeout_ms step = record {
  query_name = step.query_name;
  record_type = step.record_type;
  resolver_ip = resolver;
  timeout_ms = timeout_ms;
  transport = step.transport;
  server_mode = step.server_mode;
  edns = step.edns;
  dnssec = false;
  recursion_desired = true;
}

-- The query of a name's addresses, of a resolver of the pool or for the random label.
unfoldable pub address_spec : Text → Text → ℕ → Spec
address_spec name resolver timeout_ms = record {
  query_name = name;
  record_type = txt "A";
  resolver_ip = resolver;
  timeout_ms = timeout_ms;
  transport = txt "udp";
  server_mode = txt "resolver";
  edns = true;
  dnssec = false;
  recursion_desired = true;
}

-- The answers to the queries of a scan: of a job with this resolver, timeout and pool, for the host
-- by its name and its zone.
unfoldable pub scan_answers :
    Network
    → (resolver : Text) → (timeout_ms : ℕ) → (pool : List Text) → (fqdn zone random_label : Text)
    → Answers
unfolding query_result step_spec address_spec
scan_answers net resolver timeout_ms pool fqdn zone random_label = record {
  ask = λ step. query_result (run_query net (step_spec resolver timeout_ms step));
  pool = map (λ r. (r, (run_query net (address_spec fqdn r timeout_ms)).resolved_ips)) pool;
  random_label = random_label;
  wildcard_answer =
      (run_query net (address_spec (random_label ++ (txt "." ++ zone)) resolver timeout_ms)).answer;
}

-- The table of the DNS library has a name for the code of each answer.
pub record HasNames (net : Network) : Type 0 where
  pub named :
      (q : Question) (rcode : Text) (latency_us : ℕ) (answer authority additional : List Text)
      → net.exchange q ≡ answered rcode latency_us answer authority additional
      → is_empty rcode ≡ false

code_of :
    (net : Network) → HasNames net → (r : ClientResult) → IsGraded net r → is_empty r.rcode ≡ false
code_of net names r graded = elim (Bool-cases (is_empty r.rcode)) [
  | inl h ↦
      let (q, us, a, b, c, e) = graded.named h in
      let bad : true ≡ false = names.named q [] us a b c e in cc
  | inr h ↦ h
]

kind-some : (k : Text) → has k kinds ≡ true → is_empty k ≡ false
unfolding text_beq
kind-some [] h = cc
kind-some (c ∷ k) h = refl

kind_of :
    (net : Network) (r : ClientResult)
    → IsGraded net r
    → (r.rcode == txt "NOERROR") ≡ false
    → is_empty r.error_kind ≡ false
unfolding text_beq
kind_of net r graded other = elim (Bool-cases r.success) [
  | inl h ↦
      let (e, _, _) = graded.good h in
      let no : (txt "NOERROR" == txt "NOERROR") ≡ false = rw e at other in cc
  | inr h ↦ kind-some r.error_kind (graded.kind h)
]

-- Where the DNS library has a name for each code, a scan that asks the network by the client finds
-- the host unreachable exactly when the baseline names records and the first answer of its plan
-- failed with the kind timeout, no service when that failed with servfail or connection_refused,
-- and a refusal when the first of all failures had the code REFUSED: a timeout or a SERVFAIL behind
-- a first answer without failure is neither.
pub scan_answers-availability :
    (parse_ip : Text → Option IpTraits) (net : Network) (names : HasNames net) (resolver : Text)
    (timeout_ms : ℕ) (pool : List Text) (random_label : Text) (host : LibraryHost) (zone : Text)
    (reads : HostReads) (at : ℕ) (rows : List VerdictRow) (out : HostScan)
    → scan_host parse_ip host zone reads
        (scan_answers net resolver timeout_ms pool host.fqdn zone random_label)
        at
        rows
      ≡ some out
    → let asked = scan_answers net resolver timeout_ms pool host.fqdn zone random_label in
      let answers = map asked.ask (scan_plan host.fqdn host.notes zone) in
      let expects = not (is_empty (primary_expected reads.baselines)) in
      (has unreach out.result.risk_types ≡ (expects && first_kind answers == txt "timeout"))
      × (has no_service out.result.risk_types ≡ (
          expects
          && (first_kind answers == txt "servfail"
              || first_kind answers == txt "connection_refused")))
      × (has refused out.result.risk_types ≡ (failure_code answers == txt "REFUSED"))
unfolding scan_answers query_result
scan_answers-availability parse_ip net names resolver timeout_ms pool random_label host zone reads
      at rows out done =
    scan_host-availability parse_ip host zone reads
      (scan_answers net resolver timeout_ms pool host.fqdn zone random_label) at rows out done
      (λ q.
        let graded = run_query-IsGraded net (step_spec resolver timeout_ms q) in
        record { has_code = code_of net names _ graded; has_kind = kind_of net _ graded })
