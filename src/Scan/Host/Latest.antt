-- ===== src/Scan/Host/Latest.antt =====
-- internal/service/scanner.go: the table of latest verdicts after the upserts of a scan.
use dnsgolang.Base.{
  ℕ, ◌≡◌, ◌≢◌, refl, sym, ap, ◌∙◌, Bool, true, false, ◌&&◌, ◌||◌, Option, none, some, List, [], ◌∷◌,
  map, find, Eq, arith, beq_comm, beq→eq, if◌then◌else◌, nat_beq, nat_beq_iff, ◌==◌, Bool-cases,
  inl, inr,
}
use dnsgolang.Base.Sets.{has, Distinct}
use dnsgolang.Risk.Catalog.{RiskType, risk_eq}
use dnsgolang.Risk.Types.{Status, Verdict, normal, suspicious}
use dnsgolang.Risk.Engine.{suspects, is_suspicious, suspicious_of}
use dnsgolang.Scan.Host.Rows.{
  VerdictRow, is_row_of, new_row, assign, upsert_verdict, upsert_verdicts,
}

abbrev pub status_and_time : Option VerdictRow → Option (Status × ℕ)
status_and_time none = none
status_and_time (some row) = some (row.status, row.detected_at)

-- What the table says of a host and a risk type, and since when.
unfoldable pub latest : ℕ → RiskType → List VerdictRow → Option (Status × ℕ)
latest host_id r rows = status_and_time (find (is_row_of host_id r) rows)

-- The key of a row is a number with a risk type.
module _ {K : Type 0} ⦃e : Eq K⦄ where
  both→eq : (a b : ℕ) (r s : K) → (nat_beq a b && r == s) ≡ true → (a ≡ b) × (r ≡ s)
  both→eq a b r s h = ground (arith, nat_beq_iff a b, e.beq_iff r s)

  eq→both : (a b : ℕ) (r s : K) → a ≡ b → r ≡ s → (nat_beq a b && r == s) ≡ true
  eq→both a b r s h k = ground (arith, nat_beq_iff a b, e.beq_iff r s)

  -- A key differs from one of two that differ.
  neither :
      (a b h : ℕ) (r s k : K)
      → (nat_beq a b && r == s) ≡ false
      → (nat_beq a h && r == k) ≡ true
      → (nat_beq b h && s == k) ≡ false
  neither a b h r s k no' same = elim (Bool-cases (nat_beq b h && s == k)) [
    | inr out ↦ out
    | inl in' ↦
        let (p, q) = both→eq a h r k same in
        let (p', q') = both→eq b h s k in' in cc (eq→both a b r s (p ∙ sym p') (q ∙ sym q'))
  ]

or-false : (a b : Bool) → (a || b) ≡ false → (a ≡ false) × (b ≡ false)
or-false a b h = ground arith

or-true : (a b : Bool) → (a || b) ≡ true → a ≡ false → b ≡ true
or-true a b h e = ground arith

status-eq :
    (s : Status)
    → s ≡ (if (elim s [ suspicious ↦ true | normal ↦ false ]) || false then suspicious else normal)
status-eq normal = refl
status-eq suspicious = refl

module _ (host_id at : ℕ) where
  latest-upsert_verdict :
      (h : ℕ) (r : RiskType) (v : Verdict) (rows : List VerdictRow)
      → latest h r (upsert_verdict host_id at v rows)
        ≡ (if nat_beq host_id h && v.risk_type == r then some (v.status, at) else latest h r rows)
  unfolding latest upsert_verdict new_row assign
  latest-upsert_verdict h r v [] = elim (Bool-cases (nat_beq host_id h && v.risk_type == r)) [
    | inl e ↦ rw e
    | inr e ↦ rw e
  ]
  latest-upsert_verdict h r v (row ∷ rows) = elim (Bool-cases (is_row_of host_id v.risk_type row)) [
    | inl own ↦
        let (p, q) = both→eq row.host_id host_id row.risk_type v.risk_type own in
        elim (Bool-cases (nat_beq host_id h && v.risk_type == r)) [
          | inl e ↦ rw (own, e) (rw (p, q, e))
          | inr e ↦ rw (own, e) (rw (p, q, e))
        ]
    | inr other ↦ elim (Bool-cases (is_row_of h r row)) [
      | inl e ↦ rw (other, e, neither row.host_id host_id h row.risk_type v.risk_type r other e)
      | inr e ↦ rw (other, e) (latest-upsert_verdict h r v rows)
    ]
  ]

  -- What a list of verdicts leaves of the entry of the host.
  after : RiskType → List Verdict → Option (Status × ℕ) → Option (Status × ℕ)
  after r [] o = o
  after r (v ∷ vs) o = after r vs (if v.risk_type == r then some (v.status, at) else o)

  latest-upsert_verdicts :
      (r : RiskType) (vs : List Verdict) (rows : List VerdictRow)
      → latest host_id r (upsert_verdicts host_id at vs rows) ≡ after r vs (latest host_id r rows)
  unfolding upsert_verdicts after
  latest-upsert_verdicts r [] rows = refl
  latest-upsert_verdicts r (v ∷ vs) rows =
      latest-upsert_verdicts r vs (upsert_verdict host_id at v rows)
      ∙ ap (after r vs)
          (latest-upsert_verdict host_id r v rows ∙ (rw ((nat_beq_iff host_id host_id).1 refl)))

  -- The entries of other hosts stay.
  pub latest-upsert_verdicts_other :
      (h : ℕ) (r : RiskType) (vs : List Verdict) (rows : List VerdictRow)
      → h ≢ host_id
      → latest h r (upsert_verdicts host_id at vs rows) ≡ latest h r rows
  unfolding upsert_verdicts
  latest-upsert_verdicts_other h r [] rows d = refl
  latest-upsert_verdicts_other h r (v ∷ vs) rows d =
      latest-upsert_verdicts_other h r vs (upsert_verdict host_id at v rows) d
      ∙ latest-upsert_verdict h r v rows
      ∙ (rw differs)
    where
      differs : nat_beq host_id h ≡ false
      differs = ground (arith, d, nat_beq_iff host_id h)

  after-absent :
      (r : RiskType) (vs : List Verdict) (o : Option (Status × ℕ))
      → has r (map (λ v. v.risk_type) vs) ≡ false
      → (after r vs o ≡ o) × (suspects r vs ≡ false)
  unfolding after
  after-absent r [] o h = (refl, refl)
  after-absent r (v ∷ vs) o h =
      let (p, q) = or-false (r == v.risk_type) (has r (map (λ w. w.risk_type) vs)) h in
      rw (beq_comm v.risk_type r ∙ p) (after-absent r vs o q)

  after-once :
      (r : RiskType) (vs : List Verdict) (o : Option (Status × ℕ))
      → Distinct (map (λ v. v.risk_type) vs)
      → has r (map (λ v. v.risk_type) vs) ≡ true
      → after r vs o ≡ some ((if suspects r vs then suspicious else normal), at)
  unfolding after
  after-once r [] o d h = cc
  after-once r (v ∷ vs) o d h = elim (Bool-cases (v.risk_type == r)) [
    | inl e ↦
        let same = beq→eq v.risk_type r e in
        let (p, q) = after-absent r vs (some (v.status, at)) (rw (← same) d.0) in
        rw (e, q) (p ∙ ap (λ s. some (s, at)) (status-eq v.status))
    | inr e ↦ rw e (
        after-once r vs o d.1 (
          or-true (r == v.risk_type) (has r (map (λ w. w.risk_type) vs)) h
            (beq_comm r v.risk_type ∙ e)))
  ]

  pub latest-upsert_verdicts_once :
      (r : RiskType) (vs : List Verdict) (rows : List VerdictRow)
      → Distinct (map (λ v. v.risk_type) vs)
      → has r (map (λ v. v.risk_type) vs) ≡ true
      → latest host_id r (upsert_verdicts host_id at vs rows)
        ≡ some ((if suspects r vs then suspicious else normal), at)
  latest-upsert_verdicts_once r vs rows d h =
      latest-upsert_verdicts r vs rows ∙ after-once r vs (latest host_id r rows) d h

and_true : (a b t u : Bool) → a ≡ b → t ≡ u → (a || t) ≡ ((b && true) || u)
and_true a b t u h k = ground arith

and_false : (b t u : Bool) → t ≡ u → t ≡ ((b && false) || u)
and_false b t u h = ground arith

has-if :
    (r : RiskType) (v : Verdict) (vs : List Verdict) (b t : Bool)
    → has r (map (λ w. w.risk_type) vs) ≡ t
    → has r (map (λ w. w.risk_type) (if b then v ∷ vs else vs)) ≡ ((v.risk_type == r && b) || t)
has-if r v vs true t h =
    and_true (r == v.risk_type) (v.risk_type == r) (has r (map (λ w. w.risk_type) vs)) t
      (beq_comm r v.risk_type) h
has-if r v vs false t h = and_false (v.risk_type == r) (has r (map (λ w. w.risk_type) vs)) t h

-- The risk types of the suspicious verdicts are those that are suspected.
pub has-suspicious :
    (r : RiskType) (vs : List Verdict)
    → has r (map (λ v. v.risk_type) (suspicious_of vs)) ≡ suspects r vs
unfolding suspicious_of
has-suspicious r [] = refl
has-suspicious r (v ∷ vs) =
    has-if r v (suspicious_of vs) (is_suspicious v) (suspects r vs) (has-suspicious r vs)
