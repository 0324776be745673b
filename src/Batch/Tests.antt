-- ===== src/Batch/Tests.antt =====
-- internal/service/batch.go: the theorem on parsed inputs at four lines, with a repeated domain and
-- an invalid one.
use dnsgolang.Base.{ℕ, ◌≡◌, refl, Bool, List, [], ◌∷◌, text_beq}
use dnsgolang.Base.Text.{
  Text, txt, contains, has_prefix, lower, trim_space, trim, trim_left, trim_right,
}
use dnsgolang.Batch.Input.{
  BatchInputRecord, valid, invalid, duplicate, ParsedBatchInput, ok, normalize_batch_domain,
  trim_final_dot, is_valid_batch_domain, status_of, scan_rows, tally, summed, parse_batch_input,
}
use dnsgolang.Batch.Input.Counts.{IsParsed, parse_batch_input-IsParsed}

-- A test that asks for a dot.
abbrev has_dot : Text → Bool
has_dot s = contains (txt ".") s

abbrev rows : List (ℕ × Text)
rows =
    (1, txt "Example.com.")
    ∷ (3, txt "example.com")
    ∷ (4, txt "localhost")
    ∷ (5, txt "www.example.com")
    ∷ []

abbrev entry : ℕ → Text → Text → BatchInputRecord
entry n raw name = record {
  line_no = n;
  raw_target = raw;
  normalized_target = name;
  input_status = valid;
}

abbrev parsed : ParsedBatchInput
parsed = record {
  records =
      entry 1 (txt "Example.com.") (txt "example.com")
      ∷ record (entry 3 (txt "example.com") (txt "example.com")) { input_status = duplicate }
      ∷ record (entry 4 (txt "localhost") (txt "localhost")) { input_status = invalid }
      ∷ entry 5 (txt "www.example.com") (txt "www.example.com")
      ∷ [];
  total_input_count = 4;
  valid_target_count = 2;
  invalid_target_count = 1;
  duplicate_count = 1;
}

accepted : parse_batch_input has_dot (ok rows) ≡ ok parsed
unfolding parse_batch_input summed tally scan_rows status_of is_valid_batch_domain
    normalize_batch_domain trim_final_dot contains has_prefix lower trim trim_left trim_right
    trim_space text_beq
accepted = refl

parse_batch_input-IsParsed_example : IsParsed has_dot parsed
parse_batch_input-IsParsed_example = parse_batch_input-IsParsed has_dot rows parsed accepted
