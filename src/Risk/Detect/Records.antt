-- ===== src/Risk/Detect/Records.antt =====
-- internal/risk/engine.go: the comparison of the record names and types of baseline and answer.
use dnsgolang.Base.{
  ◌≡◌, refl, Bool, true, not, ◌&&◌, ◌||◌, List, [], ◌∷◌, arith, keep, any, is_empty, ◌==◌, text_eq,
  text_beq_iff, any-keep,
}
use dnsgolang.Base.Text.{Text, text_ltb}
use dnsgolang.Base.Sets.{has, add, has-add}
use dnsgolang.Base.Sort.{sort_by, any-sort_by}
use dnsgolang.Risk.Types.{RecordBaseline, RecordObserved}
use dnsgolang.Risk.Detect.{
  name_type, is_answer, expected_name_types, observed_name_types, has_baseline, missing,
  record_deletion_hit,
}

-- An answer of the observation shows the name and type of the key.
abbrev pub is_shown : List RecordObserved → Text → Bool
is_shown records k = any (λ o. is_answer o.section && k == name_type o.name o.type) records

has-observed :
    (k : Text) (records : List RecordObserved)
    → has k (observed_name_types records) ≡ is_shown records k
unfolding observed_name_types
has-observed k [] = refl
has-observed k (o ∷ os) =
    ground (arith, has-observed k os, has-add k (name_type o.name o.type) (observed_name_types os))

any_of_has :
    (p : Text → Bool) (k : Text) (xs : List Text) → has k xs ≡ true → p k ≡ true → any p xs ≡ true
any_of_has p k [] h e = cc
any_of_has p k (x ∷ xs) h e = ground (arith, any_of_has p k xs, text_beq_iff k x)

any-add : (p : Text → Bool) (k : Text) (xs : List Text) → any p (add k xs) ≡ (p k || any p xs)
unfolding add
any-add p k xs = ground (arith, any_of_has p k xs)

any-expected :
    (p : Text → Bool) (baseline : List RecordBaseline)
    → any p (expected_name_types baseline)
      ≡ any (λ r. is_answer r.section && p (name_type r.name r.type)) baseline
unfolding expected_name_types
any-expected p [] = refl
any-expected p (r ∷ rs) =
    ground (arith, any-expected p rs, any-add p (name_type r.name r.type) (expected_name_types rs))

any-not_shown :
    (records : List RecordObserved) (ks : List Text)
    → any (λ k. not (has k (observed_name_types records))) ks
      ≡ any (λ k. not (is_shown records k)) ks
any-not_shown records [] = refl
any-not_shown records (k ∷ ks) = ground (arith, any-not_shown records ks, has-observed k records)

-- The test for deleted records holds exactly when some answer record of the baseline has a name
-- and type that no answer record of the observation has.
pub record_deletion_hit-eq :
    (baseline : List RecordBaseline) (records : List RecordObserved)
    → record_deletion_hit baseline records
      ≡ any (λ r. is_answer r.section && not (is_shown records (name_type r.name r.type))) baseline
unfolding record_deletion_hit has_baseline
record_deletion_hit-eq [] records = refl
record_deletion_hit-eq (r ∷ rs) records = ground (
  arith,
  any-not_shown records (expected_name_types (r ∷ rs)),
  any-expected (λ k. not (is_shown records k)) (r ∷ rs),
)

is_empty-any : (xs : List Text) → is_empty xs ≡ not (any (λ x. true) xs)
is_empty-any [] = refl
is_empty-any (x ∷ xs) = refl

any-and_true : (p : Text → Bool) (xs : List Text) → any (λ x. p x && true) xs ≡ any p xs
any-and_true p [] = refl
any-and_true p (x ∷ xs) = ground (arith, any-and_true p xs)

-- The list of missing keys is empty exactly when the test is silent.
pub is_empty-missing :
    (baseline : List RecordBaseline) (records : List RecordObserved)
    → is_empty (missing baseline records) ≡ not (record_deletion_hit baseline records)
unfolding missing record_deletion_hit has_baseline
is_empty-missing [] records = refl
is_empty-missing (r ∷ rs) records =
    let absent = λ (k : Text). not (has k (observed_name_types records)) in
    let lost = keep absent (expected_name_types (r ∷ rs)) in
    ground (
      arith,
      is_empty-any (sort_by text_ltb lost),
      any-sort_by text_ltb (λ _. true) lost,
      any-keep (λ _. true) absent (expected_name_types (r ∷ rs)),
      any-and_true absent (expected_name_types (r ∷ rs)),
    )
