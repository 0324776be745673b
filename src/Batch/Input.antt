-- ===== src/Batch/Input.antt =====
-- internal/service/batch.go: `ParseBatchInput` and `iterBatchRows`. `matches` stands for the match
-- of the regular expression `batchDomainRe`, `read_csv` for the reader of package csv, with `none`
-- for its error.
pub mod Counts
use dnsgolang.Base.{
  ℕ, suc, zero, ◌+◌, Bool, true, false, not, ◌&&◌, ◌||◌, Option, none, some, List, [], ◌∷◌, map,
  if◌then◌else◌, leb, ltb, nat_beq, ◌==◌, text_eq, length, get_elem?, drop, is_empty,
}
use dnsgolang.Base.Text.{Text, txt, lower, trim_space, has_prefix, split}
use dnsgolang.Base.Sets.{has}

abbrev pub batch_max_file_size : ℕ
batch_max_file_size = 2097152

abbrev pub batch_max_valid_target : ℕ
batch_max_valid_target = 10000

pub data InputStatus : Type 0 where
  valid invalid duplicate : InputStatus

-- The reason for skipping a record is its status.
pub record BatchInputRecord : Type 0 where
  pub line_no : ℕ
  pub raw_target : Text
  pub normalized_target : Text
  pub input_status : InputStatus

pub record ParsedBatchInput : Type 0 where
  pub records : List BatchInputRecord
  pub total_input_count : ℕ
  pub valid_target_count : ℕ
  pub invalid_target_count : ℕ
  pub duplicate_count : ℕ

pub data InputError : Type 0 where
  no_content no_valid too_many no_file too_large unsupported_type : InputError

pub data Parsed {ℓ} (A : Type ℓ) : Type ℓ where
  ok : A → Parsed A
  err : InputError → Parsed A

-- strings.TrimSuffix(value, ".")
unfoldable pub trim_final_dot : Text → Text
trim_final_dot [] = []
trim_final_dot (c ∷ []) = if nat_beq c b'.' then [] else c ∷ []
trim_final_dot (c ∷ d ∷ s) = c ∷ trim_final_dot (d ∷ s)

unfoldable pub normalize_batch_domain : Text → Text
unfolding lower trim_space trim_final_dot
normalize_batch_domain raw = trim_final_dot (lower (trim_space raw))

-- The value of a row, if it is neither empty nor a comment.
abbrev pub is_content : Text → Bool
is_content value = not (is_empty value) && not (has_prefix (txt "#") value)

-- The rows of a text, numbered from `i`.
unfoldable pub text_rows : ℕ → List Text → List (ℕ × Text)
text_rows i [] = []
text_rows i (line ∷ lines) =
    let rest = text_rows (i + 1) lines in
    if is_content (trim_space line) then (i, trim_space line) ∷ rest else rest

unfoldable pub csv_target_column : List Text → Option ℕ
csv_target_column [] = none
csv_target_column (cell ∷ header) =
    let name = lower (trim_space cell) in
    let rest = csv_target_column header in
    if name == txt "domain" || name == txt "target"
    then some 0
    else elim rest [ none ↦ none | some i ↦ some (i + 1) ]

-- The rows of a csv file from record `i` on, by the column that holds the targets.
unfoldable pub column_rows : ℕ → ℕ → List (List Text) → List (ℕ × Text)
column_rows column i [] = []
column_rows column i (row ∷ rows) =
    let rest = column_rows column (i + 1) rows in
    elim (get_elem? row column) [
      | none ↦ rest
      | some cell ↦ if is_content (trim_space cell) then (i, trim_space cell) ∷ rest else rest
    ]

unfoldable pub csv_rows : Option (List (List Text)) → List (ℕ × Text)
unfolding csv_target_column column_rows
csv_rows none = []
csv_rows (some []) = []
csv_rows (some (header ∷ rows)) = elim (csv_target_column header) [
  | none ↦ column_rows 0 1 (header ∷ rows)
  | some column ↦ column_rows column 2 rows
]

-- The last part of a name, if it has a dot.
unfoldable pub extension : List Text → Text
extension [] = []
extension (part ∷ []) = []
extension (part ∷ last ∷ []) = last
extension (part ∷ next ∷ more) = extension (next ∷ more)

-- strings.TrimPrefix(content, "\ufeff"), whose bytes are EF BB BF.
unfoldable pub without_mark : Text → Text
without_mark content = if has_prefix (239 ∷ 187 ∷ 191 ∷ []) content then drop 3 content else content

unfoldable pub iter_batch_rows :
    (Text → Option (List (List Text))) → Text → Text → Text → Text → Parsed (List (ℕ × Text))
unfolding text_rows csv_rows extension
iter_batch_rows read_csv input_mode targets_text file_name file_content =
    let ext = extension (split b'.' (lower file_name)) in
    if input_mode == txt "text"
    then ok (text_rows 1 (split 10 targets_text))
    else if is_empty file_content
    then err no_file
    else if ltb batch_max_file_size (length file_content)
    then err too_large
    else if not (ext == txt "txt") && not (ext == txt "csv")
    then err unsupported_type
    else if ext == txt "txt"
    then ok (text_rows 1 (split 10 (without_mark file_content)))
    else ok (csv_rows (read_csv (without_mark file_content)))

abbrev pub status_beq : InputStatus → InputStatus → Bool
status_beq valid valid = true
status_beq invalid invalid = true
status_beq duplicate duplicate = true
status_beq _ _ = false

-- The counter of a status: each round adds its record and one to the counter of its status.
unfoldable pub tally : InputStatus → List BatchInputRecord → ℕ
tally status [] = 0
tally status (r ∷ rs) =
    let rest = tally status rs in if status_beq r.input_status status then suc rest else rest

unfoldable pub summed : List BatchInputRecord → ParsedBatchInput
unfolding tally
summed records = record {
  records = records;
  total_input_count = length records;
  valid_target_count = tally valid records;
  invalid_target_count = tally invalid records;
  duplicate_count = tally duplicate records;
}

module _ (matches : Text → Bool) where
  unfoldable pub is_valid_batch_domain : Text → Bool
  is_valid_batch_domain value = not (has_prefix (txt "://") value) && matches value

  -- The status that the loop gives to a domain, with the domains seen before.
  unfoldable pub status_of : List Text → Text → InputStatus
  status_of seen name =
      if not (is_valid_batch_domain name)
      then invalid
      else if has name seen
      then duplicate
      else valid

  -- The loop over the rows; `seen` holds the valid domains so far.
  unfoldable pub scan_rows : List Text → List (ℕ × Text) → List BatchInputRecord
  unfolding status_of
  scan_rows seen [] = []
  scan_rows seen ((line_no, raw) ∷ rows) =
      let name = normalize_batch_domain raw in
      let status = status_of seen name in
      let same = scan_rows seen rows in
      let more = scan_rows (name ∷ seen) rows in
      let entry : BatchInputRecord = record {
        line_no = line_no;
        raw_target = trim_space raw;
        normalized_target = name;
        input_status = status;
      } in
      if is_empty name
      then same
      else elim status [ valid ↦ entry ∷ more | invalid ↦ entry ∷ same | duplicate ↦ entry ∷ same ]

  unfoldable pub parse_batch_input : Parsed (List (ℕ × Text)) → Parsed ParsedBatchInput
  unfolding summed
  parse_batch_input (err e) = err e
  parse_batch_input (ok rows) =
      let parsed = summed (scan_rows [] rows) in
      if is_empty rows
      then err no_content
      else if nat_beq parsed.valid_target_count 0
      then err no_valid
      else if ltb batch_max_valid_target parsed.valid_target_count
      then err too_many
      else ok parsed
