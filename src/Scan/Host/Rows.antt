-- ===== src/Scan/Host/Rows.antt =====
-- internal/service/scanner.go: the rows that the scan of a host writes for its verdicts: the latest
-- verdict of a host on each risk type (`RiskVerdictLatest`), and the findings of the methods.
use dnsgolang.Base.{
  ℕ, String, Bool, true, false, ◌&&◌, Option, none, some, List, [], ◌∷◌, ◌++◌, if◌then◌else◌,
  nat_beq, ◌==◌,
}
use dnsgolang.Risk.Catalog.{
  RiskType, Severity, unrated, Tier, untiered, MethodCode, risk_eq, code_beq,
}
use dnsgolang.Risk.Types.{Status, Evidence, Verdict}
use dnsgolang.Risk.Engine.{is_suspicious}

pub record VerdictRow : Type 0 where
  pub host_id : ℕ
  pub risk_type : RiskType
  pub status : Status
  pub severity : Severity
  pub confidence_tier : Tier
  pub method_code : Option MethodCode
  pub summary_message : String
  pub evidence : Evidence
  pub detected_at : ℕ

-- gorm assigns the fields of a struct that are not zero.
abbrev pub or_old_severity : Severity → Severity → Severity
or_old_severity old unrated = old
or_old_severity old new = new

abbrev pub or_old_tier : Tier → Tier → Tier
or_old_tier old untiered = old
or_old_tier old new = new

abbrev pub or_old_code : Option MethodCode → Option MethodCode → Option MethodCode
or_old_code old none = old
or_old_code old (some code) = some code

unfoldable pub new_row : ℕ → ℕ → Verdict → VerdictRow
new_row host_id at v = record {
  host_id = host_id;
  risk_type = v.risk_type;
  status = v.status;
  severity = v.severity;
  confidence_tier = v.confidence_tier;
  method_code = v.method_code;
  summary_message = v.summary_message;
  evidence = v.evidence;
  detected_at = at;
}

unfoldable pub assign : ℕ → Verdict → VerdictRow → VerdictRow
assign at v row = record row {
  status = v.status;
  severity = or_old_severity row.severity v.severity;
  confidence_tier = or_old_tier row.confidence_tier v.confidence_tier;
  method_code = or_old_code row.method_code v.method_code;
  summary_message = v.summary_message;
  evidence = v.evidence;
  detected_at = at;
}

abbrev pub is_row_of : ℕ → RiskType → VerdictRow → Bool
is_row_of host_id r row = nat_beq row.host_id host_id && row.risk_type == r

-- `FirstOrCreate` with `Assign`.
unfoldable pub upsert_verdict : ℕ → ℕ → Verdict → List VerdictRow → List VerdictRow
unfolding new_row assign
upsert_verdict host_id at v [] = new_row host_id at v ∷ []
upsert_verdict host_id at v (row ∷ rows) =
    if is_row_of host_id v.risk_type row
    then assign at v row ∷ rows
    else row ∷ upsert_verdict host_id at v rows

unfoldable pub upsert_verdicts : ℕ → ℕ → List Verdict → List VerdictRow → List VerdictRow
unfolding upsert_verdict
upsert_verdicts host_id at [] rows = rows
upsert_verdicts host_id at (v ∷ vs) rows =
    upsert_verdicts host_id at vs (upsert_verdict host_id at v rows)

-- The findings of one method.
pub record Finding : Type 0 where
  pub method_code : Option MethodCode
  pub verdicts : List Verdict

abbrev pub same_method : Option MethodCode → Option MethodCode → Bool
same_method none none = true
same_method (some a) (some b) = code_beq a b
same_method _ _ = false

unfoldable pub append_finding : Verdict → List Finding → List Finding
append_finding v [] = record { method_code = v.method_code; verdicts = v ∷ [] } ∷ []
append_finding v (f ∷ fs) =
    if same_method f.method_code v.method_code
    then record f { verdicts = f.verdicts ++ (v ∷ []) } ∷ fs
    else f ∷ append_finding v fs

unfoldable pub method_findings : List Verdict → List Finding → List Finding
unfolding append_finding
method_findings [] fs = fs
method_findings (v ∷ vs) fs =
    method_findings vs (if is_suspicious v then append_finding v fs else fs)
