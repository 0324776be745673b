-- ===== src/Scan/Watch/Codes.antt =====
-- internal/service/scanner.go: the code and the kind of error that the scan of a host takes from the
-- answers to its plan, and what no scan observes.
use dnsgolang.Base.{
  ◌≡◌, refl, ◌∙◌, false, Option, none, some, List, [], ◌∷◌, map, arith, ◌++◌, if◌then◌else◌, ◌==◌,
  text_eq, is_empty, beq_refl, beq→eq, Bool-cases, inl, inr,
}
use dnsgolang.Base.Text.{Text, txt}
use dnsgolang.Risk.Types.{RecordObserved}
use dnsgolang.Scan.Lines.{parse_rr_line}
use dnsgolang.Scan.Watch.{
  QueryResult, Watch, Snapshot, note_soa, note_result, note_failure, note_code, sort_record,
  read_record, read_section, watch_result, watch_plan, nothing_seen,
}
use dnsgolang.Tasks.Create.{fields}
use dnsgolang.Trust.Discovery.{QueryStep}

-- The client gives each answer a code, and a failure a kind.
pub record IsAnswer (r : QueryResult) : Type 0 where
  pub has_code : is_empty r.rcode ≡ false
  pub has_kind : (r.rcode == txt "NOERROR") ≡ false → is_empty r.error_kind ≡ false

-- The code of the first answer that failed.
unfoldable pub failure_code : List QueryResult → Text
failure_code [] = txt "NOERROR"
failure_code (r ∷ rs) = if r.rcode == txt "NOERROR" then failure_code rs else r.rcode

-- The kind of the first answer, if that failed.
unfoldable pub first_kind : List QueryResult → Text
first_kind [] = []
first_kind (r ∷ rs) = if r.rcode == txt "NOERROR" then [] else r.error_kind

-- The code and kind of a snapshot.
abbrev pub HasCodes : Text → Text → Watch → Type 0
HasCodes rcode kind w = (w.snapshot.rcode ≡ rcode) × (w.snapshot.error_kind ≡ kind)

note_soa-codes :
    (values : List Text) (s : Snapshot)
    → ((note_soa values s).rcode ≡ s.rcode)
      × ((note_soa values s).error_kind ≡ s.error_kind)
      × ((note_soa values s).axfr_success ≡ s.axfr_success)
unfolding note_soa
note_soa-codes [] s = (refl, refl, refl)
note_soa-codes (a ∷ []) s = (refl, refl, refl)
note_soa-codes (a ∷ b ∷ []) s = (refl, refl, refl)
note_soa-codes (a ∷ b ∷ c ∷ vs) s = (refl, refl, refl)

abbrev pub SameCodes : Watch → Watch → Type 0
SameCodes v w =
    (v.snapshot.rcode ≡ w.snapshot.rcode)
    × (v.snapshot.error_kind ≡ w.snapshot.error_kind)
    × (v.snapshot.axfr_success ≡ w.snapshot.axfr_success)
    × (v.observation.latency_samples ≡ w.observation.latency_samples)

pub SameCodes-trans : (u v w : Watch) → SameCodes u v → SameCodes v w → SameCodes u w
SameCodes-trans u v w (a, b, c, d) (a', b', c', d') = (a ∙ a', b ∙ b', c ∙ c', d ∙ d')

-- The first answer of a scan.
note_result-first :
    (r : QueryResult) (s : Snapshot)
    → IsAnswer r
    → s.rcode ≡ []
    → s.error_kind ≡ []
    → ((note_result r s).rcode ≡ r.rcode) × ((note_result r s).error_kind ≡ first_kind (r ∷ []))
unfolding note_result note_failure note_code first_kind
note_result-first r s h e k = ground (arith, h.has_code, h.has_kind, beq_refl (txt "NOERROR"))

-- A later one, after answers without failure.
note_result-later :
    (r : QueryResult) (s : Snapshot)
    → IsAnswer r
    → s.rcode ≡ txt "NOERROR"
    → s.error_kind ≡ []
    → ((note_result r s).rcode ≡ r.rcode) × ((note_result r s).error_kind ≡ [])
unfolding note_result note_failure note_code
note_result-later r s h e k = ground (arith, h.has_code, h.has_kind, beq_refl (txt "NOERROR"))

-- After a failure nothing is noted.
note_result-failed :
    (r : QueryResult) (s : Snapshot)
    → is_empty s.rcode ≡ false
    → (s.rcode == txt "NOERROR") ≡ false
    → ((note_result r s).rcode ≡ s.rcode) × ((note_result r s).error_kind ≡ s.error_kind)
unfolding note_result
note_result-failed r s h e = ground arith

note_result-axfr :
    (r : QueryResult) (s : Snapshot) → (note_result r s).axfr_success ≡ s.axfr_success
unfolding note_result
note_result-axfr r s = ground arith

module _ (fqdn zone : Text) where
  sort_record-codes : (rr : RecordObserved) (w : Watch) → SameCodes (sort_record fqdn zone rr w) w
  unfolding sort_record
  sort_record-codes rr w = ground (arith, note_soa-codes (fields rr.value) w.snapshot)

  read_record-codes :
      (rr : Option RecordObserved) (w : Watch) → SameCodes (read_record fqdn zone rr w) w
  unfolding read_record
  read_record-codes none w = (refl, refl, refl, refl)
  read_record-codes (some rr) w = sort_record-codes rr (record w {
    observation = record w.observation { records = w.observation.records ++ (rr ∷ []) };
  })

  read_section-codes :
      (section : Text) (lines : List Text) (w : Watch)
      → SameCodes (read_section fqdn zone section lines w) w
  unfolding read_section
  read_section-codes section [] w = (refl, refl, refl, refl)
  read_section-codes section (line ∷ lines) w =
      let rr = parse_rr_line line section in
      let v = read_record fqdn zone rr w in
      SameCodes-trans (read_section fqdn zone section lines v) v w
        (read_section-codes section lines v) (read_record-codes rr w)

  watch_result-codes :
      (r : QueryResult) (w : Watch)
      → SameCodes (watch_result fqdn zone r w) (record w { snapshot = note_result r w.snapshot })
  unfolding watch_result
  watch_result-codes r w =
      let v0 = record w { snapshot = note_result r w.snapshot } in
      let v1 = read_section fqdn zone (txt "answer") r.answer v0 in
      let v2 = read_section fqdn zone (txt "authority") r.authority v1 in
      let v3 = read_section fqdn zone (txt "additional") r.additional v2 in
      SameCodes-trans v3 v2 v0 (read_section-codes (txt "additional") r.additional v2) (
        SameCodes-trans v2 v1 v0 (read_section-codes (txt "authority") r.authority v1)
          (read_section-codes (txt "answer") r.answer v0))

  -- No step takes samples of latencies or tries a transfer.
  pub watch_plan-blind :
      (ask : QueryStep → QueryResult) (plan : List QueryStep) (w : Watch)
      → let v = watch_plan fqdn zone ask plan w in
        (v.snapshot.axfr_success ≡ w.snapshot.axfr_success)
        × (v.observation.latency_samples ≡ w.observation.latency_samples)
  unfolding watch_plan
  watch_plan-blind ask [] w = (refl, refl)
  watch_plan-blind ask (q ∷ qs) w =
      let v = watch_result fqdn zone (ask q) w in
      let (_, _, a, l) = watch_result-codes (ask q) w in
      let (a', l') = watch_plan-blind ask qs v in
      (a' ∙ a ∙ note_result-axfr (ask q) w.snapshot, l' ∙ l)

  module _ (ask : QueryStep → QueryResult) (good : (q : QueryStep) → IsAnswer (ask q)) where
    watch_plan-failed :
        (plan : List QueryStep) (w : Watch) (rcode kind : Text)
        → is_empty rcode ≡ false
        → (rcode == txt "NOERROR") ≡ false
        → HasCodes rcode kind w
        → HasCodes rcode kind (watch_plan fqdn zone ask plan w)
    unfolding watch_plan
    watch_plan-failed [] w rcode kind h e k = k
    watch_plan-failed (q ∷ qs) w rcode kind h e k =
        let (p, c, _, _) = watch_result-codes (ask q) w in
        let (f, g) = note_result-failed (ask q) w.snapshot (rw k.0 h) (rw k.0 e) in
        watch_plan-failed qs (watch_result fqdn zone (ask q) w) rcode kind h e
          (p ∙ f ∙ k.0, c ∙ g ∙ k.1)

    watch_plan-fine :
        (plan : List QueryStep) (w : Watch)
        → HasCodes (txt "NOERROR") [] w
        → HasCodes (failure_code (map ask plan)) [] (watch_plan fqdn zone ask plan w)
    unfolding watch_plan failure_code
    watch_plan-fine [] w k = k
    watch_plan-fine (q ∷ qs) w k =
        let (p, c, _, _) = watch_result-codes (ask q) w in
        let (f, g) = note_result-later (ask q) w.snapshot (good q) k.0 k.1 in
        let v = watch_result fqdn zone (ask q) w in
        elim (Bool-cases ((ask q).rcode == txt "NOERROR")) [
          | inl e ↦
              rw e (watch_plan-fine qs v (p ∙ f ∙ beq→eq (ask q).rcode (txt "NOERROR") e, c ∙ g))
          | inr e ↦
              rw e (watch_plan-failed qs v (ask q).rcode [] (good q).has_code e (p ∙ f, c ∙ g))
        ]

    pub watch_plan-codes :
        (q : QueryStep) (qs : List QueryStep)
        → HasCodes
            (failure_code (map ask (q ∷ qs)))
            (first_kind (map ask (q ∷ qs)))
            (watch_plan fqdn zone ask (q ∷ qs) nothing_seen)
    unfolding watch_plan failure_code first_kind
    watch_plan-codes q qs =
        let (p, c, _, _) = watch_result-codes (ask q) nothing_seen in
        let (f, g) = note_result-first (ask q) nothing_seen.snapshot (good q) refl refl in
        let v = watch_result fqdn zone (ask q) nothing_seen in
        elim (Bool-cases ((ask q).rcode == txt "NOERROR")) [
          | inl e ↦ rw e (
              watch_plan-fine qs v
                (p ∙ f ∙ beq→eq (ask q).rcode (txt "NOERROR") e, c ∙ g ∙ (rw (first_kind, e))))
          | inr e ↦ rw e (
              watch_plan-failed qs v (ask q).rcode (ask q).error_kind (good q).has_code e
                (p ∙ f, c ∙ g ∙ (rw (first_kind, e))))
        ]
