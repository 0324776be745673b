-- ===== src/Batch/Input/Counts.antt =====
-- internal/service/batch.go: what holds of the records and the counts of a parsed input.
use dnsgolang.Base.{
  ℕ, suc, ◌+◌, ◌≤◌, ◌≡◌, refl, Bool, true, false, List, [], ◌∷◌, arith, length, text_eq,
  text_beq_iff, is_empty, if◌then◌else◌, subst,
}
use dnsgolang.Base.Text.{Text}
use dnsgolang.Base.Sets.{has, Distinct}
use dnsgolang.Batch.Input.{
  InputStatus, valid, invalid, duplicate, BatchInputRecord, ParsedBatchInput, ok, status_beq, tally,
  summed, normalize_batch_domain, is_valid_batch_domain, status_of, scan_rows, parse_batch_input,
  batch_max_valid_target,
}

-- The domains that a parsed input scans.
unfoldable pub targets : List BatchInputRecord → List Text
targets [] = []
targets (r ∷ rs) =
    if status_beq r.input_status valid then r.normalized_target ∷ targets rs else targets rs

tally-sum :
    (rs : List BatchInputRecord)
    → tally valid rs + tally invalid rs + tally duplicate rs ≡ length rs
unfolding tally
tally-sum [] = omega arith
tally-sum (r ∷ rs) = counted (tally-sum rs) r.input_status
  where
    counted :
        tally valid rs + tally invalid rs + tally duplicate rs ≡ length rs
        → (x : InputStatus)
        → (if status_beq x valid then suc (tally valid rs) else tally valid rs)
            + (if status_beq x invalid then suc (tally invalid rs) else tally invalid rs)
            + (if status_beq x duplicate then suc (tally duplicate rs) else tally duplicate rs)
          ≡ suc (length rs)
    counted ih valid = omega (arith, ih)
    counted ih invalid = omega (arith, ih)
    counted ih duplicate = omega (arith, ih)

module _ (matches : Text → Bool) where
  targets-fresh :
      (seen : List Text) (rows : List (ℕ × Text)) (k : Text)
      → has k (targets (scan_rows matches seen rows)) ≡ true
      → (has k seen ≡ false) × (is_valid_batch_domain matches k ≡ true) × (is_empty k ≡ false)
  unfolding scan_rows targets status_of
  targets-fresh seen [] k h = cc
  targets-fresh seen ((n, raw) ∷ rows) k h =
      let name = normalize_batch_domain raw in
      ground
        (arith, targets-fresh seen rows k, targets-fresh (name ∷ seen) rows k, text_beq_iff k name)

  targets-Distinct :
      (seen : List Text) (rows : List (ℕ × Text)) → Distinct (targets (scan_rows matches seen rows))
  unfolding scan_rows targets status_of
  targets-Distinct seen [] = tt
  targets-Distinct seen ((n, raw) ∷ rows) =
      let name = normalize_batch_domain raw in
      ground (
        arith,
        targets-Distinct (name ∷ seen) rows,
        targets-Distinct seen rows,
        targets-fresh (name ∷ seen) rows name,
        text_beq_iff name name,
      )

-- The number of targets is the count of valid records.
targets-length : (rs : List BatchInputRecord) → length (targets rs) ≡ tally valid rs
unfolding targets tally
targets-length [] = refl
targets-length (r ∷ rs) = ground (arith, targets-length rs)

module _ (matches : Text → Bool) where
  abbrev pub IsParsed : ParsedBatchInput → Type 0
  IsParsed p =
      (1 ≤ p.valid_target_count)
      × (p.valid_target_count ≤ batch_max_valid_target)
      × (length (targets p.records) ≡ p.valid_target_count)
      × Distinct (targets p.records)
      × ((k : Text)
          → has k (targets p.records) ≡ true
          → (is_valid_batch_domain matches k ≡ true) × (is_empty k ≡ false))
      × (p.valid_target_count + p.invalid_target_count + p.duplicate_count ≡ p.total_input_count)

  -- An input that is accepted has at least one valid domain and at most ten thousand. Its domains
  -- to scan are those of the valid records, as many as counted, none of them twice, each of them
  -- valid and not empty; and the three counts add up to the total.
  pub parse_batch_input-IsParsed :
      (rows : List (ℕ × Text)) (p : ParsedBatchInput)
      → parse_batch_input matches (ok rows) ≡ ok p
      → IsParsed p
  unfolding parse_batch_input summed
  parse_batch_input-IsParsed rows p h =
      let records = scan_rows matches [] rows in
      let (same, least, most) : (summed records ≡ p)
          × (1 ≤ tally valid records)
          × (tally valid records ≤ batch_max_valid_target) =
        ground (arith, h) in
      subst IsParsed same (
        least,
        most,
        targets-length records,
        targets-Distinct matches [] rows,
        (λ k m. let (_, good, full) = targets-fresh matches [] rows k m in (good, full)),
        tally-sum records,
      )
