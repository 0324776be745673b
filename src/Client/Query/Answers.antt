-- ===== src/Client/Query/Answers.antt =====
-- internal/engine/dnsclient/client.go: how the result of a query grades what happened.
use dnsgolang.Base.{
  ℕ, ◌≡◌, refl, ap, ◌∙◌, Bool, true, false, ◌||◌, none, List, [], ◌∷◌, arith, is_empty, ◌==◌,
  text_eq, text_beq, if◌then◌else◌, Bool-cases, inl, inr, ◌⊎◌,
}
use dnsgolang.Base.Text.{Text, txt, lower, contains, has_prefix}
use dnsgolang.Base.Sets.{has}
use dnsgolang.Client.Server.{detect_error_kind}
use dnsgolang.Client.Query.{
  Spec, Question, Exchange, failed, answered, Network, ClientResult, Transfer, unopened, opened,
  failed_result, is_timeout, answered_result, exchanged, ask_server, received, lines_result,
  transferred, run_on, run_resolved, run_query, or_three, is_mode, resolve_authoritative_server,
}

abbrev pub kinds : List Text
kinds =
    txt "connection_refused" ∷ txt "servfail" ∷ txt "timeout" ∷ txt "refused" ∷ txt "dns_error" ∷ []

-- What the fields of a result say together. It has a code, unless the library has no name for the
-- code of an answer.
pub record IsGraded (net : Network) (r : ClientResult) : Type 0 where
  pub named :
      is_empty r.rcode ≡ true
      → (q : Question) × (us : ℕ) × (answer : List Text) × (authority : List Text)
        × (additional : List Text) × (net.exchange q ≡ answered [] us answer authority additional)
  pub good :
      r.success ≡ true → (r.rcode ≡ txt "NOERROR") × (r.error_kind ≡ []) × (r.error_message ≡ [])
  pub kind : r.success ≡ false → has r.error_kind kinds ≡ true
  pub servfail : (r.rcode == txt "SERVFAIL") ≡ true → r.error_kind ≡ txt "servfail"
  pub refused : (r.rcode == txt "REFUSED") ≡ true → r.error_kind ≡ txt "refused"
  pub no_data :
      (r.rcode == txt "NOERROR") ≡ true → r.success ≡ false → r.error_kind ≡ txt "dns_error"
  pub timeout :
      (r.rcode == txt "TIMEOUT") ≡ true → r.latency_us ≡ none → r.error_kind ≡ txt "timeout"
  pub silent : r.latency_us ≡ none → (r.success ≡ false) × (r.answer ≡ [])

kind-known :
    (a b c d : Bool)
    → has
        (if a
          then txt "connection_refused"
          else if b
          then txt "servfail"
          else if c
          then txt "timeout"
          else if d
          then txt "refused"
          else txt "dns_error")
        kinds
      ≡ true
unfolding text_beq
kind-known true b c d = refl
kind-known false true c d = refl
kind-known false false true d = refl
kind-known false false false true = refl
kind-known false false false false = refl

detect_error_kind-known :
    (message rcode : Text) → has (detect_error_kind message rcode) kinds ≡ true
unfolding detect_error_kind
detect_error_kind-known message rcode = kind-known _ _ _ _

-- Without a message the code alone decides.
detect_error_kind-code :
    (rcode : Text)
    → detect_error_kind [] rcode ≡ (
        if rcode == txt "SERVFAIL"
        then txt "servfail"
        else if rcode == txt "REFUSED"
        then txt "refused"
        else txt "dns_error")
unfolding detect_error_kind lower contains has_prefix
detect_error_kind-code rcode = refl

-- The kind of a failure before any answer.
kind_or-known :
    (kind message rcode : Text)
    → (kind ≡ []) ⊎ (kind ≡ txt "timeout")
    → has (if is_empty kind then detect_error_kind message rcode else kind) kinds ≡ true
unfolding text_beq
kind_or-known kind message rcode (inl e) = rw e (detect_error_kind-known message rcode)
kind_or-known kind message rcode (inr e) = rw e refl

failed_result-IsGraded :
    (net : Network) (rcode kind message mode : Text)
    → is_empty rcode ≡ false
    → (rcode == txt "SERVFAIL") ≡ false
    → (rcode == txt "REFUSED") ≡ false
    → (rcode == txt "NOERROR") ≡ false
    → ((kind ≡ []) × ((rcode == txt "TIMEOUT") ≡ false)) ⊎ (kind ≡ txt "timeout")
    → IsGraded net (failed_result rcode kind message mode)
unfolding failed_result
failed_result-IsGraded net rcode kind message mode some_code a b c (inl (e, d)) = record {
  named = λ h. cc;
  good = λ h. cc;
  kind = λ h. kind_or-known kind message rcode (inl e);
  servfail = λ h. cc;
  refused = λ h. cc;
  no_data = λ h k. cc;
  timeout = λ h k. cc;
  silent = λ h. (refl, refl);
}
failed_result-IsGraded net rcode kind message mode some_code a b c (inr e) = record {
  named = λ h. cc;
  good = λ h. cc;
  kind = λ h. kind_or-known kind message rcode (inr e);
  servfail = λ h. cc;
  refused = λ h. cc;
  no_data = λ h k. cc;
  timeout = λ h k. rw e refl;
  silent = λ h. (refl, refl);
}

is_empty-eq : (s : Text) → is_empty s ≡ true → s ≡ []
is_empty-eq [] h = refl
is_empty-eq (c ∷ s) h = cc

module _ (net : Network) where
  answered_result-IsGraded :
      (rcode : Text) (latency_us : ℕ) (answer authority additional : List Text) (mode : Text)
      (q : Question)
      → net.exchange q ≡ answered rcode latency_us answer authority additional
      → IsGraded net (answered_result net rcode latency_us answer authority additional mode)
  unfolding answered_result text_beq
  answered_result-IsGraded rcode latency_us answer authority additional mode q e =
      let code = detect_error_kind-code rcode in
      let none_code = detect_error_kind-code [] in
      let is_noerror = text_eq.beq_iff rcode (txt "NOERROR") in
      let is_servfail = text_eq.beq_iff rcode (txt "SERVFAIL") in
      let is_refused = text_eq.beq_iff rcode (txt "REFUSED") in
      record {
        named = λ h.
            let empty : rcode ≡ [] = is_empty-eq rcode h in
            (
              q,
              latency_us,
              answer,
              authority,
              additional,
              e ∙ ap (λ c. answered c latency_us answer authority additional) empty,
            );
        good = λ h. ground (arith, h, is_noerror);
        kind =
            λ h. ground (arith, h, detect_error_kind-known [] rcode, detect_error_kind-known [] []);
        servfail = λ h. rw (is_servfail.0 h) refl;
        refused = λ h. rw (is_refused.0 h) refl;
        no_data = λ h k. ground (arith, h, k, none_code);
        timeout = λ h k. cc;
        silent = λ h. cc;
      }

  exchanged-IsGraded :
      (x : Exchange) (mode : Text) (q : Question)
      → net.exchange q ≡ x
      → IsGraded net (exchanged net x mode)
  unfolding exchanged text_beq
  exchanged-IsGraded (failed net_timeout over message) mode q from =
      elim (Bool-cases (is_timeout net_timeout message || over)) [
        | inl e ↦ rw e (
            failed_result-IsGraded net (txt "TIMEOUT") (txt "timeout") message mode refl refl refl
              refl (inr refl))
        | inr e ↦ rw e (
            failed_result-IsGraded net (txt "DNSERROR") [] message mode refl refl refl refl
              (inl (refl, refl)))
      ]
  exchanged-IsGraded (answered rcode us answer authority additional) mode q from =
      answered_result-IsGraded rcode us answer authority additional mode q from

  lines_result-IsGraded :
      (r : List Text ⊎ Text) (latency_us : ℕ) (mode : Text)
      → IsGraded net (lines_result net r latency_us mode)
  unfolding lines_result text_beq
  lines_result-IsGraded (inr message) us mode =
      failed_result-IsGraded net (txt "AXFRERROR") [] message mode refl refl refl refl
        (inl (refl, refl))
  lines_result-IsGraded (inl lines) us mode = record {
    named = λ h. cc;
    good = λ h. (refl, refl, refl);
    kind = λ h. cc;
    servfail = λ h. cc;
    refused = λ h. cc;
    no_data = λ h k. cc;
    timeout = λ h k. cc;
    silent = λ h. cc;
  }

  transferred-IsGraded : (t : Transfer) (mode : Text) → IsGraded net (transferred net t mode)
  unfolding transferred text_beq
  transferred-IsGraded (unopened message) mode =
      failed_result-IsGraded net (txt "AXFRERROR") [] message mode refl refl refl refl
        (inl (refl, refl))
  transferred-IsGraded (opened parts us) mode =
      lines_result-IsGraded (received net parts []) us mode

  ask_server-IsGraded :
      (server : Text) (timeout_ms : ℕ) (mode : Text) (spec : Spec)
      → IsGraded net (ask_server net server timeout_ms mode spec)
  unfolding ask_server text_beq
  ask_server-IsGraded server timeout_ms mode spec =
      elim (Bool-cases (net.known_type spec.record_type)) [
        | inl e ↦ rw e (exchanged-IsGraded (net.exchange _) mode _ refl)
        | inr e ↦ rw e (
            failed_result-IsGraded net (txt "DNSERROR") [] _ mode refl refl refl refl
              (inl (refl, refl)))
      ]

  run_on-IsGraded :
      (server : Text) (timeout_ms : ℕ) (mode : Text) (spec : Spec)
      → IsGraded net (run_on net server timeout_ms mode spec)
  unfolding run_on
  run_on-IsGraded server timeout_ms mode spec = elim (Bool-cases (spec.record_type == txt "AXFR")) [
    | inl e ↦ rw e (transferred-IsGraded (net.transfer _ _ spec.query_name) mode)
    | inr e ↦ rw e (ask_server-IsGraded server timeout_ms mode spec)
  ]

  run_resolved-IsGraded :
      (r : Text ⊎ Text) (timeout_ms : ℕ) (mode : Text) (spec : Spec)
      → IsGraded net (run_resolved net r timeout_ms mode spec)
  unfolding run_resolved text_beq
  run_resolved-IsGraded (inl server) timeout_ms mode spec =
      run_on-IsGraded server timeout_ms mode spec
  run_resolved-IsGraded (inr why) timeout_ms mode spec =
      elim (Bool-cases (spec.record_type == txt "AXFR")) [
        | inl e ↦ rw e (
            failed_result-IsGraded net (txt "AXFRERROR") [] why mode refl refl refl refl
              (inl (refl, refl)))
        | inr e ↦ rw e (
            failed_result-IsGraded net (txt "DNSERROR") [] why mode refl refl refl refl
              (inl (refl, refl)))
      ]

  pub run_query-IsGraded : (spec : Spec) → IsGraded net (run_query net spec)
  unfolding run_query
  run_query-IsGraded spec =
      let ms = or_three spec.timeout_ms in
      let mode = if is_mode spec.server_mode then spec.server_mode else txt "resolver" in
      elim (Bool-cases (mode == txt "authoritative")) [
        | inl e ↦ rw e (
            run_resolved-IsGraded
              (resolve_authoritative_server net spec.query_name spec.resolver_ip ms) ms mode spec)
        | inr e ↦ rw e (run_on-IsGraded spec.resolver_ip ms mode spec)
      ]
