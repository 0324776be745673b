-- ===== src/Client/Query.antt =====
-- internal/engine/dnsclient/client.go: one query (`RunQuery`, `runAXFR`, `ResolveAuthoritativeServer`). The
-- network, the DNS library and the list of public suffixes are the record `Network`. A latency is a
-- number of microseconds. Flags and the printed output of a result are left out.
pub mod Answers
use dnsgolang.Base.{
  ℕ, ◌+◌, ◌*◌, ◌/◌, Bool, true, false, not, ◌&&◌, ◌||◌, Option, none, some, List, [], ◌∷◌, ◌++◌,
  ◌==◌, text_eq, nat_eq, if◌then◌else◌, is_empty, map, ℤ, pos, ◌⊎◌, inl, inr,
}
use dnsgolang.Base.Text.{Text, txt, lower, trim, is_dot, contains}
use dnsgolang.Client.Server.{
  split_server, detect_error_kind, rr_lines, values_of, any_text, is_ns, is_a_or_aaaa, ns_names_of,
}
use dnsgolang.Probing.Options.{Scanners, infer_zone_domain}

pub record Spec : Type 0 where
  pub query_name : Text
  pub record_type : Text
  pub resolver_ip : Text
  pub timeout_ms : ℕ
  pub transport : Text
  pub server_mode : Text
  pub edns : Bool
  pub dnssec : Bool
  pub recursion_desired : Bool

-- The message that is sent, and where. `edns` is none where there is no such option, else the flag
-- for DNSSEC.
pub record Question : Type 0 where
  pub host : Text
  pub port : ℤ
  pub network : Text
  pub name : Text
  pub record_type : Text
  pub edns : Option Bool
  pub recursion_desired : Bool
  pub timeout_ms : ℕ

pub data Exchange : Type 0 where
  failed : (net_timeout deadline_over : Bool) (message : Text) → Exchange
  answered : (rcode : Text) (latency_us : ℕ) (answer authority additional : List Text) → Exchange

-- What comes over the channel of a transfer.
pub data TransferPart : Type 0 where
  rows : List Text → TransferPart
  fault : (message : Text) → TransferPart

pub data Transfer : Type 0 where
  unopened : (message : Text) → Transfer
  opened : (parts : List TransferPart) (latency_us : ℕ) → Transfer

pub record Network : Type 0 where
  pub exchange : Question → Exchange
  pub transfer : (host : Text) (port : ℤ) (name : Text) → Transfer
  pub known_type : Text → Bool
  pub is_ip : Text → Bool
  pub scan : Scanners

pub record ClientResult : Type 0 where
  pub rcode : Text
  pub latency_us : Option ℕ
  pub answer : List Text
  pub authority : List Text
  pub additional : List Text
  pub resolved_ips : List Text
  pub cname_chain : List Text
  pub error_kind : Text
  pub error_message : Text
  pub success : Bool
  pub server_mode : Text

-- To hundredths of a millisecond.
unfoldable pub round_us : ℕ → ℕ
round_us us = (us + 5) / 10 * 10

unfoldable pub failed_result : (rcode error_kind message server_mode : Text) → ClientResult
unfolding detect_error_kind
failed_result rcode error_kind message server_mode = record {
  rcode = rcode;
  latency_us = none;
  answer = [];
  authority = [];
  additional = [];
  resolved_ips = [];
  cname_chain = [];
  error_kind = if is_empty error_kind then detect_error_kind message rcode else error_kind;
  error_message = message;
  success = false;
  server_mode = server_mode;
}

-- Whether an error of the network is a timeout.
unfoldable pub is_timeout : Bool → Text → Bool
unfolding lower contains
is_timeout net_timeout message =
    net_timeout
    || (contains (txt "timeout") (lower message) || contains (txt "i/o timeout") (lower message))

abbrev pub or_three : ℕ → ℕ
or_three ms = if nat_eq.beq ms 0 then 3000 else ms

abbrev pub is_mode : Text → Bool
is_mode mode = mode == txt "resolver" || mode == txt "authoritative"

module _ (net : Network) where
  -- The result of an answer.
  unfoldable pub answered_result :
      Text → ℕ → (answer authority additional : List Text) → Text → ClientResult
  unfolding round_us rr_lines values_of detect_error_kind
  answered_result rcode latency_us answer authority additional server_mode =
      let lines = rr_lines answer in
      let success = rcode == txt "NOERROR" && not (is_empty lines) in
      record {
        rcode = rcode;
        latency_us = some (round_us latency_us);
        answer = lines;
        authority = rr_lines authority;
        additional = rr_lines additional;
        resolved_ips = values_of is_a_or_aaaa net.is_ip lines;
        cname_chain = map (trim is_dot) (values_of (λ type. type == txt "CNAME") any_text lines);
        error_kind =
            if success
            then []
            else if rcode == txt "NOERROR"
            then detect_error_kind [] []
            else detect_error_kind [] rcode;
        error_message = if success || rcode == txt "NOERROR" then [] else rcode;
        success = success;
        server_mode = server_mode;
      }

  unfoldable pub exchanged : Exchange → Text → ClientResult
  unfolding failed_result is_timeout answered_result
  exchanged (failed net_timeout deadline_over message) mode =
      if is_timeout net_timeout message || deadline_over
      then failed_result (txt "TIMEOUT") (txt "timeout") message mode
      else failed_result (txt "DNSERROR") [] message mode
  exchanged (answered rcode latency_us answer authority additional) mode =
      answered_result rcode latency_us answer authority additional mode

  -- A query of this server that is no transfer.
  unfoldable pub ask_server : Text → ℕ → Text → Spec → ClientResult
  unfolding split_server exchanged
  ask_server server timeout_ms mode spec =
      let (host, port) = split_server server (pos 53) in
      if net.known_type spec.record_type
      then exchanged
          (net.exchange (record {
            host = host;
            port = port;
            network = if spec.transport == txt "tcp" then txt "tcp" else txt "udp";
            name = spec.query_name;
            record_type = spec.record_type;
            edns = if spec.edns || spec.dnssec then some spec.dnssec else none;
            recursion_desired = spec.recursion_desired;
            timeout_ms = timeout_ms;
          }))
          mode
      else failed_result (txt "DNSERROR") []
          (txt "unsupported dns record type: " ++ spec.record_type) mode

  -- The queries of the client itself: over UDP, of the resolver.
  unfoldable pub ask_resolver : Text → Text → Text → ℕ → Bool → Bool → ClientResult
  unfolding ask_server
  ask_resolver name record_type resolver_ip timeout_ms edns recursion_desired =
      ask_server resolver_ip (or_three timeout_ms) (txt "resolver") (record {
        query_name = name;
        record_type = record_type;
        resolver_ip = resolver_ip;
        timeout_ms = timeout_ms;
        transport = txt "udp";
        server_mode = txt "resolver";
        edns = edns;
        dnssec = false;
        recursion_desired = recursion_desired;
      })

  abbrev pub first_of : List Text → Text
  first_of [] = []
  first_of (x ∷ xs) = x

  -- The address of the server that is asked for; none where there is none.
  unfoldable pub address_of : Text → Text → ℕ → List Text → Option Text
  unfolding ask_resolver
  address_of name resolver_ip timeout_ms [] = none
  address_of name resolver_ip timeout_ms (qtype ∷ qtypes) =
      let rest = address_of name resolver_ip timeout_ms qtypes in
      let res = ask_resolver name qtype resolver_ip timeout_ms true true in
      elim (values_of any_text net.is_ip res.answer) [ [] ↦ rest | ip ∷ ips ↦ some ip ]

  -- The first NS line decides, also where its name is empty.
  unfoldable pub resolve_authoritative_server : Text → Text → ℕ → Text ⊎ Text
  unfolding ask_resolver address_of
  resolve_authoritative_server query_name resolver_ip timeout_ms =
      let inferred = infer_zone_domain net.scan query_name in
      let zone = if is_empty inferred then query_name else inferred in
      let target =
        first_of
          (ns_names_of (ask_resolver zone (txt "NS") resolver_ip timeout_ms true true).answer) in
      if is_empty target
      then inr (txt "unable to resolve authoritative NS for " ++ zone)
      else elim (address_of target resolver_ip timeout_ms (txt "A" ∷ txt "AAAA" ∷ [])) [
        | some ip ↦ inl ip
        | none ↦ inr (txt "unable to resolve authoritative server address")
      ]

  -- The parts of a transfer up to a fault.
  unfoldable pub received : List TransferPart → List Text → List Text ⊎ Text
  unfolding rr_lines
  received [] lines = inl lines
  received (rows rrs ∷ parts) lines = received parts (lines ++ rr_lines rrs)
  received (fault message ∷ parts) lines = inr message

  -- The lines of a transfer that came to its end, or its fault.
  unfoldable pub lines_result : List Text ⊎ Text → ℕ → Text → ClientResult
  unfolding failed_result round_us values_of
  lines_result (inr message) latency_us mode = failed_result (txt "AXFRERROR") [] message mode
  lines_result (inl lines) latency_us mode = record {
    rcode = txt "NOERROR";
    latency_us = some (round_us latency_us);
    answer = lines;
    authority = [];
    additional = [];
    resolved_ips = values_of is_a_or_aaaa net.is_ip lines;
    cname_chain = [];
    error_kind = [];
    error_message = [];
    success = true;
    server_mode = mode;
  }

  unfoldable pub transferred : Transfer → Text → ClientResult
  unfolding received failed_result lines_result
  transferred (unopened message) mode = failed_result (txt "AXFRERROR") [] message mode
  transferred (opened parts latency_us) mode = lines_result (received parts []) latency_us mode

  unfoldable pub run_on : Text → ℕ → Text → Spec → ClientResult
  unfolding ask_server transferred split_server
  run_on server timeout_ms mode spec =
      let (host, port) = split_server server (pos 53) in
      if spec.record_type == txt "AXFR"
      then transferred (net.transfer host port spec.query_name) mode
      else ask_server server timeout_ms mode spec

  -- A query of the authoritative server, where there is one.
  unfoldable pub run_resolved : Text ⊎ Text → ℕ → Text → Spec → ClientResult
  unfolding run_on failed_result
  run_resolved (inl server) timeout_ms mode spec = run_on server timeout_ms mode spec
  run_resolved (inr why) timeout_ms mode spec =
      failed_result (if spec.record_type == txt "AXFR" then txt "AXFRERROR" else txt "DNSERROR") []
        why mode

  unfoldable pub run_query : Spec → ClientResult
  unfolding resolve_authoritative_server run_resolved run_on
  run_query spec =
      let timeout_ms = or_three spec.timeout_ms in
      let mode = if is_mode spec.server_mode then spec.server_mode else txt "resolver" in
      if mode == txt "authoritative"
      then run_resolved (resolve_authoritative_server spec.query_name spec.resolver_ip timeout_ms)
          timeout_ms mode spec
      else run_on spec.resolver_ip timeout_ms mode spec
