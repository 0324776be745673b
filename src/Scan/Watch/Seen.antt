-- ===== src/Scan/Watch/Seen.antt =====
-- internal/service/scanner.go: what the scan of a host has observed at its end.
use dnsgolang.Base.{
  ◌≡◌, refl, ◌∙◌, Bool, true, false, List, [], ◌∷◌, map, ◌||◌, text_eq, Bool-cases, inl, inr,
}
use dnsgolang.Base.Text.{Text, txt, lower, contains, has_prefix}
use dnsgolang.Scan.Watch.{
  Watch, Answers, watch_plan, review_pool, probe_wildcard, set_answer, settle, nothing_seen,
  scan_plan, same_name, watch_host,
}
use dnsgolang.Trust.Discovery.{QueryStep, udp}
use dnsgolang.Scan.Watch.Codes.{
  IsAnswer, failure_code, first_kind, SameCodes, SameCodes-trans, watch_plan-codes,
  watch_plan-blind,
}

review_pool-codes : (pool : List (Text × List Text)) (w : Watch) → SameCodes (review_pool pool w) w
unfolding review_pool
review_pool-codes [] w = (refl, refl, refl, refl)
review_pool-codes ((r, ips) ∷ pool) w = review_pool-codes pool (record w {
  observation = record w.observation {
    resolver_answers = set_answer r ips w.observation.resolver_answers;
  };
})

probe_wildcard-codes :
    (at_apex : Bool) (label : Text) (answer : List Text) (w : Watch)
    → SameCodes (probe_wildcard at_apex label answer w) w
unfolding probe_wildcard
probe_wildcard-codes true label answer w = (refl, refl, refl, refl)
probe_wildcard-codes false label answer w = (refl, refl, refl, refl)

scan_plan-cons :
    (fqdn notes zone : Text)
    → (q : QueryStep) × (qs : List QueryStep) × (scan_plan fqdn notes zone ≡ q ∷ qs)
unfolding scan_plan
scan_plan-cons fqdn notes zone = elim (Bool-cases (same_name fqdn zone)) [
  | inl e ↦ rw e (udp zone (txt "A"), _, refl)
  | inr e ↦
      elim (Bool-cases
        (contains (txt "role=ns_host") (lower notes) || has_prefix (txt "ns") fqdn)) [
          | inl d ↦ rw (e, d) (udp fqdn (txt "A"), _, refl)
          | inr d ↦ rw (e, d) (udp fqdn (txt "A"), _, refl)
        ]
]

module _ (fqdn notes zone : Text) (net : Answers) where
  after_plan :
      SameCodes
        (probe_wildcard (same_name fqdn zone) net.random_label net.wildcard_answer (
          review_pool net.pool
            (watch_plan fqdn zone net.ask (scan_plan fqdn notes zone) nothing_seen)))
        (watch_plan fqdn zone net.ask (scan_plan fqdn notes zone) nothing_seen)
  after_plan =
      let w = watch_plan fqdn zone net.ask (scan_plan fqdn notes zone) nothing_seen in
      let v = review_pool net.pool w in
      SameCodes-trans (probe_wildcard (same_name fqdn zone) net.random_label net.wildcard_answer v)
        v w (probe_wildcard-codes (same_name fqdn zone) net.random_label net.wildcard_answer v)
        (review_pool-codes net.pool w)

  -- Where the client gives each answer a code and each failure a kind, the code of a scan is that of
  -- the first step of its plan that fails, and its kind of error that of the first step of all: a
  -- failure behind an answer without failure gives the code and no kind.
  pub watch_host-codes :
      ((q : QueryStep) → IsAnswer (net.ask q))
      → let answers = map net.ask (scan_plan fqdn notes zone) in
        let seen = (watch_host fqdn notes zone net).observation in
        (seen.rcode ≡ failure_code answers) × (seen.error_kind ≡ first_kind answers)
  unfolding watch_host settle
  watch_host-codes good =
      let (q, qs, e) = scan_plan-cons fqdn notes zone in
      let (c, k) = watch_plan-codes fqdn zone net.ask good q qs in
      let (c', k', _, _) = after_plan in (c' ∙ (rw e c), k' ∙ (rw e k))

  pub watch_host-blind :
      let seen = (watch_host fqdn notes zone net).observation in
      (seen.axfr_success ≡ false) × (seen.latency_samples ≡ []) × (seen.trace_broken ≡ false)
  unfolding watch_host settle
  watch_host-blind =
      let (a, l) = watch_plan-blind fqdn zone net.ask (scan_plan fqdn notes zone) nothing_seen in
      let (_, _, a', l') = after_plan in (a' ∙ a, l' ∙ l, refl)
