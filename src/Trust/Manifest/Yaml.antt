-- ===== src/Trust/Manifest/Yaml.antt =====
-- internal/service/trust.go: `splitKV`, the two functions that apply a field, and
-- `parseYAMLSubsetManifest` as a machine that reads one line at a time.
use dnsgolang.Base.{
  ℕ, suc, Bool, true, false, not, ◌&&◌, ◌||◌, Option, none, some, List, [], ◌∷◌, ◌++◌,
  if◌then◌else◌, leb, nat_beq, ltb, ◌==◌, text_eq, is_empty,
}
use dnsgolang.Base.Text.{
  Text, txt, lower, trim, trim_left, trim_right, trim_space, has_prefix, cut, split,
}
use dnsgolang.Trust.Manifest.{
  ManifestHost, ManifestItem, Checked, ok, err, invalid_structure, normalize_fqdn, importance_high,
}

pub record Pair : Type 0 where
  pub key : Text
  pub value : Text

abbrev is_quote : ℕ → Bool
is_quote c = nat_beq c 34 || nat_beq c 39

-- What stands before the first " #", or the whole text.
unfoldable pub before_comment : Text → Option Text
unfolding has_prefix
before_comment [] = none
before_comment (c ∷ s) =
    let later = before_comment s in
    if has_prefix (txt " #") (c ∷ s)
    then some []
    else elim later [ none ↦ none | some t ↦ some (c ∷ t) ]

unfoldable pub split_kv : Text → Option Pair
unfolding cut trim trim_left trim_right trim_space before_comment
split_kv s = elim (cut b':' s) [
  | none ↦ none
  | some (before, after) ↦
      let value = trim is_quote (trim_space after) in
      if is_empty before
      then none
      else some (record {
        key = trim_space before;
        value = elim (before_comment value) [ none ↦ value | some t ↦ trim_space t ];
      })
]

unfoldable pub apply_manifest_item_field : ManifestItem → Text → Text → ManifestItem
unfolding normalize_fqdn lower
apply_manifest_item_field item key value =
    if key == txt "domain" || key == txt "zone_domain"
    then record item { domain = normalize_fqdn value }
    else if key == txt "owner"
    then record item { owner = value }
    else if key == txt "importance"
    then record item { importance = value }
    else if key == txt "environment"
    then record item { environment = lower value }
    else if key == txt "enabled"
    then record item { enabled = not (value == txt "false") }
    else if key == txt "notes"
    then record item { notes = value }
    else if key == txt "allow_wildcard"
    then record item { allow_wildcard = value == txt "true" }
    else if key == txt "allow_axfr"
    then record item { allow_axfr = value == txt "true" }
    else if key == txt "allow_rebind"
    then record item { allow_rebind = value == txt "true" }
    else if key == txt "dnssec_expected"
    then record item { dnssec_expected = value == txt "true" }
    else item

unfoldable pub apply_manifest_host_field : ManifestHost → Text → Text → ManifestHost
unfolding normalize_fqdn
apply_manifest_host_field host key value =
    if key == txt "fqdn" || (key == txt "host" || key == txt "name")
    then record host { fqdn = normalize_fqdn value }
    else if key == txt "allow_wildcard"
    then record host { allow_wildcard = value == txt "true" }
    else if key == txt "allow_axfr"
    then record host { allow_axfr = value == txt "true" }
    else if key == txt "allow_rebind"
    then record host { allow_rebind = value == txt "true" }
    else if key == txt "dnssec_expected"
    then record host { dnssec_expected = value == txt "true" }
    else if key == txt "enabled"
    then record host { enabled = not (value == txt "false") }
    else if key == txt "notes"
    then record host { notes = value }
    else host

-- The variables of the loop.
pub record Reader : Type 0 where
  pub items : List ManifestItem
  pub current : Option ManifestItem
  pub current_host : Option ManifestHost
  pub in_hosts : Bool

unfoldable pub flush_host : Reader → Reader
flush_host s = elim s.current [
  | none ↦ s
  | some item ↦ elim s.current_host [
    | none ↦ s
    | some host ↦ record s {
      current = some (record item { key_hosts = item.key_hosts ++ (host ∷ []) });
      current_host = none;
    }
  ]
]

-- `flushItem` after its call of `flushHost`.
unfoldable pub append_item : Reader → Reader
append_item s = elim s.current [
  | none ↦ s
  | some item ↦ record s { items = s.items ++ (item ∷ []); current = none }
]

unfoldable pub flush_item : Reader → Reader
unfolding append_item
flush_item s = append_item (flush_host s)

abbrev pub new_item : Text → ManifestItem
new_item domain = record {
  domain = domain;
  owner = [];
  importance = importance_high;
  environment = [];
  enabled = true;
  notes = [];
  allow_wildcard = false;
  allow_axfr = false;
  allow_rebind = false;
  dnssec_expected = false;
  key_hosts = [];
}

abbrev pub new_host : Text → ManifestHost
new_host fqdn = record {
  fqdn = fqdn;
  allow_wildcard = false;
  allow_axfr = false;
  allow_rebind = false;
  dnssec_expected = false;
  enabled = true;
  notes = [];
}

-- The text that a list entry names: the value of the key if it has it, or all of the entry.
unfoldable pub entry_name : Text → Text → Text
entry_name key rest = elim (split_kv rest) [
  | none ↦ rest
  | some pair ↦ if pair.key == key then pair.value else rest
]

-- strings.TrimSpace(strings.TrimPrefix(trimmed, "-")) of an entry "- …"
unfoldable pub entry_rest : Text → Text
entry_rest [] = []
entry_rest (c ∷ s) = trim_space (if nat_beq c b'-' then s else c ∷ s)

-- Spaces in front of the line, after its end is trimmed.
unfoldable pub leading_spaces : Text → ℕ
leading_spaces [] = 0
leading_spaces (c ∷ s) = if nat_beq c 32 then suc (leading_spaces s) else 0

abbrev pub is_line_end : ℕ → Bool
is_line_end c = nat_beq c 32 || (nat_beq c 9 || nat_beq c 13)

abbrev pub is_entry : Text → Bool
is_entry trimmed = has_prefix (txt "- ") trimmed

-- A line below an item that has a pair of key and value and is indented.
unfoldable pub read_pair : Reader → ManifestItem → ℕ → Text → Pair → Reader
read_pair s item indent trimmed pair =
    if pair.key == txt "key_hosts" || pair.key == txt "hosts"
    then record (flush_host s) { in_hosts = true }
    else if (is_entry trimmed && leb 2 indent) && s.in_hosts
    then record (flush_host s) {
      current_host = some (new_host (entry_name (txt "fqdn") (entry_rest trimmed)));
    }
    else if s.in_hosts
    then elim s.current_host [
      | none ↦ s
      | some host ↦ record s {
        current_host = some (apply_manifest_host_field host pair.key pair.value);
      }
    ]
    else record s { current = some (apply_manifest_item_field item pair.key pair.value) }

-- One round of the loop, past the lines that are skipped.
unfoldable pub read_line : ℕ → ℕ → Text → Reader → Checked Reader
unfolding has_prefix
read_line line_no indent trimmed s =
    if nat_beq indent 0 && is_entry trimmed
    then ok (record (flush_item s) {
      in_hosts = false;
      current = some (new_item (entry_name (txt "domain") (entry_rest trimmed)));
    })
    else elim s.current [
      | none ↦ if ltb 0 line_no then ok s else err invalid_structure
      | some item ↦ elim (split_kv trimmed) [
        | none ↦ ok s
        | some pair ↦ if nat_beq indent 0 then ok s else ok (read_pair s item indent trimmed pair)
      ]
    ]

abbrev pub is_skipped : Text → Bool
is_skipped trimmed = is_empty trimmed || (has_prefix (txt "#") trimmed || trimmed == txt "---")

unfoldable pub read_lines : ℕ → List Text → Reader → Checked Reader
unfolding read_line
read_lines line_no [] s = ok s
read_lines line_no (raw ∷ lines) s =
    let line = trim_right is_line_end raw in
    let trimmed = trim_space line in
    elim (if is_skipped trimmed then ok s else read_line line_no (leading_spaces line) trimmed s) [
      | err e ↦ err e
      | ok s' ↦ read_lines (suc line_no) lines s'
    ]

unfoldable pub parse_yaml_subset_manifest : Text → Checked (List ManifestItem)
unfolding read_lines split flush_item
parse_yaml_subset_manifest text =
    elim (read_lines 0 (split 10 text)
      (record { items = []; current = none; current_host = none; in_hosts = false })) [
        | err e ↦ err e
        | ok s ↦ elim (flush_item s).items [ [] ↦ err invalid_structure | i ∷ is ↦ ok (i ∷ is) ]
      ]
