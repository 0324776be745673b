-- ===== src/Trust/Review/Approved.antt =====
-- internal/service/trust.go: what an approval leaves in the library.
use dnsgolang.Base.{
  ℕ, ◌≡◌, refl, sym, ap, ◌∙◌, inl, inr, Bool, true, false, not, List, [], ◌∷◌, ◌++◌, map, keep, any,
  if◌then◌else◌, is_empty, nat_beq, nat_eq, nat_beq_iff, length, arith, Bool-cases, subst, ◌≢◌,
}
use dnsgolang.Base.Sets.{has}
use dnsgolang.Trust.Review.{
  approved, CandidateRecord, Baseline, Library, Review, no_host, no_batch, nothing_to_review,
  reviewed, awaits, baseline_of, set_status, others, refresh_candidate_batch_status,
  approve_records, review_records, refreshed, review_host_candidates,
}

abbrev pub of_host : ℕ → List Baseline → List Baseline
of_host host_id baselines = keep (λ b. nat_beq b.host_id host_id) baselines

of_host-new :
    (h : ℕ) (found : List CandidateRecord)
    → of_host h (map (baseline_of h) found) ≡ map (baseline_of h) found
unfolding baseline_of
of_host-new h [] = refl
of_host-new h (r ∷ rs) = ground (arith, of_host-new h rs, nat_beq_iff h h)

of_host-others : (h : ℕ) (old new : List Baseline) → of_host h (others h old ++ new) ≡ of_host h new
of_host-others h [] new = refl
of_host-others h (b ∷ old) new = ground (arith, of_host-others h old new)

others-new : (h : ℕ) (found : List CandidateRecord) → others h (map (baseline_of h) found) ≡ []
unfolding baseline_of
others-new h [] = refl
others-new h (r ∷ rs) = ground (arith, others-new h rs, nat_beq_iff h h)

others-others :
    (h : ℕ) (old new : List Baseline)
    → others h new ≡ []
    → others h (others h old ++ new) ≡ others h old
others-others h [] new e = e
others-others h (b ∷ old) new e = ground (arith, others-others h old new e)

-- The ids of the records that await a review are those that are set.
has-found :
    (b h : ℕ) (r : CandidateRecord) (before rs : List CandidateRecord)
    → awaits b h r ≡ true
    → has r.id (map (λ q. q.id) (keep (awaits b h) (before ++ (r ∷ rs)))) ≡ true
has-found b h r [] rs e = ground (arith, e, nat_beq_iff r.id r.id)
has-found b h r (q ∷ before) rs e = ground (arith, has-found b h r before rs e)

none_awaits :
    (b h : ℕ) (all' before rs : List CandidateRecord)
    → all' ≡ before ++ rs
    → any (awaits b h) (set_status (map (λ q. q.id) (keep (awaits b h) all')) approved rs) ≡ false
unfolding set_status
none_awaits b h all' before [] e = refl
none_awaits b h all' before (r ∷ rs) e =
    let rest = none_awaits b h all' (before ++ (r ∷ [])) rs (e ∙ append_one before r rs) in
    elim (Bool-cases (awaits b h r)) [
      | inl w ↦
          let there =
            ap (λ x. has r.id (map (λ q. q.id) (keep (awaits b h) x))) e
            ∙ has-found b h r before rs w in
          ground (arith, rest, there)
      | inr w ↦ ground (arith, rest, w)
    ]
  where
    append_one :
        (xs : List CandidateRecord) (r : CandidateRecord) (rs : List CandidateRecord)
        → xs ++ (r ∷ rs) ≡ (xs ++ (r ∷ [])) ++ rs
    append_one [] r rs = refl
    append_one (x ∷ xs) r rs = ap (λ t. x ∷ t) (append_one xs r rs)

-- What an approval of the records that await it makes of the library.
abbrev pub IsApproved : ℕ → ℕ → Library → ℕ → Library → Type 0
IsApproved batch_id host_id s n s' =
    (of_host host_id s'.baselines
      ≡ map (baseline_of host_id) (keep (awaits batch_id host_id) s.records))
    × (others host_id s'.baselines ≡ others host_id s.baselines)
    × (any (awaits batch_id host_id) s'.records ≡ false)
    × (n ≡ length (keep (awaits batch_id host_id) s.records))

reviewed_inj : (n m : ℕ) (s t : Library) → Review.reviewed n s ≡ reviewed m t → (n ≡ m) × (s ≡ t)
reviewed_inj n m s t e = (cc, cc)

approve_records-IsApproved :
    (b h reviewer n : ℕ) (refresh_batch : Bool) (s s' : Library)
    → refreshed b reviewer true refresh_batch
        (approve_records true h (keep (awaits b h) s.records) s)
      ≡ reviewed n s'
    → IsApproved b h s n s'
unfolding approve_records refresh_candidate_batch_status
approve_records-IsApproved b h reviewer n true s s' e =
    let found = keep (awaits b h) s.records in
    let (count, same) = reviewed_inj _ n _ s' e in
    subst (λ t. IsApproved b h s n t) same
      (
        of_host-others h s.baselines (map (baseline_of h) found) ∙ of_host-new h found,
        others-others h s.baselines (map (baseline_of h) found) (others-new h found),
        none_awaits b h s.records [] s.records refl,
        sym count,
      )
approve_records-IsApproved b h reviewer n false s s' e =
    let found = keep (awaits b h) s.records in
    let (count, same) = reviewed_inj _ n _ s' e in
    subst (λ t. IsApproved b h s n t) same
      (
        of_host-others h s.baselines (map (baseline_of h) found) ∙ of_host-new h found,
        others-others h s.baselines (map (baseline_of h) found) (others-new h found),
        none_awaits b h s.records [] s.records refl,
        sym count,
      )

past :
    (bad : Bool) (stop rest : Review) (n : ℕ) (s : Library)
    → stop ≢ reviewed n s
    → (if bad then stop else rest) ≡ reviewed n s
    → rest ≡ reviewed n s
past true stop rest n s k h = absurd (k h)
past false stop rest n s k h = h

-- An approval that goes through leaves the host with exactly the baselines of the records that
-- awaited it and every other host with its own, and no record of the batch and host awaits a
-- review any more; the count is that of these records.
pub review_host_candidates-IsApproved :
    (host_id batch_id reviewer n : ℕ) (refresh_batch : Bool) (s s' : Library)
    → review_host_candidates true host_id batch_id reviewer true refresh_batch s ≡ reviewed n s'
    → IsApproved batch_id host_id s n s'
unfolding review_host_candidates review_records
review_host_candidates-IsApproved h b reviewer n refresh_batch s s' e =
    let e1 = past (not (any (λ x. nat_beq x.id h) s.hosts)) no_host _ n s' (λ k. cc) e in
    let e2 = past (not (any (λ x. nat_beq x.id b) s.batches)) no_batch _ n s' (λ k. cc) e1 in
    let e3 = past (is_empty (keep (awaits b h) s.records)) nothing_to_review _ n s' (λ k. cc) e2 in
    approve_records-IsApproved b h reviewer n refresh_batch s s' e3
