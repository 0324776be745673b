-- ===== src/Trust/Manifest/Bare.antt =====
-- internal/service/trust.go: what `parseYAMLSubsetManifest` does with entries that hold no key.
-- A list of bare domains, one entry a line, is read back; a bare host name below `key_hosts:` is
-- passed over, since the line has no pair of key and value.
use dnsgolang.Base.{
  ℕ, suc, ◌≤◌, ◌≡◌, refl, sym, ◌∙◌, true, false, not, none, some, List, [], ◌∷◌, ◌++◌, map, arith,
  all, is_empty, nat_beq, All, ap, text_beq,
}
use mathlib.Core.List.{append-nil, append_assoc}
use dnsgolang.Base.Text.{
  Text, txt, trim, trim_left, trim_right, trim_space, is_space, has_prefix, cut, split, join,
}
use dnsgolang.Base.Text.Laws.{IsFree, trim_right_free, trim_right-cons, trim_left_free, split-join}
use dnsgolang.Trust.Manifest.{ManifestItem, Checked, ok, err}
use dnsgolang.Trust.Manifest.Yaml.{
  Reader, split_kv, append_item, entry_name, entry_rest, read_line, read_lines, flush_item,
  flush_host, new_item, leading_spaces, is_line_end, parse_yaml_subset_manifest,
}

-- No byte of the text is a colon.
abbrev pub HasNoColon : Text → Type 0
HasNoColon s = all (λ c. not (nat_beq c b':')) s ≡ true

cut-none : (s : Text) → HasNoColon s → cut b':' s ≡ none
unfolding cut
cut-none [] h = refl
cut-none (c ∷ s) h = ground (arith, cut-none s, h)

pub split_kv-none : (s : Text) → HasNoColon s → split_kv s ≡ none
unfolding split_kv
split_kv-none s h = rw (cut-none s h, split_kv)

-- Inside an item, an indented line without a colon changes nothing, a host name in the list of
-- hosts included: whatever was read before, such an entry adds no host.
pub read_line-bare :
    (line_no indent : ℕ) (trimmed : Text) (s : Reader) (item : ManifestItem)
    → s.current ≡ some item
    → 1 ≤ indent
    → HasNoColon trimmed
    → read_line line_no indent trimmed s ≡ ok s
unfolding read_line
read_line-bare line_no indent trimmed s item c i h = ground (arith, split_kv-none trimmed h, c)

-- A name that can stand bare: not empty, without white space and without a colon.
abbrev pub IsBare : Text → Type 0
IsBare d = (is_empty d ≡ false) × IsFree is_space d × HasNoColon d

-- The line of a bare entry.
abbrev pub entry : Text → Text
entry d = b'-' ∷ 32 ∷ d

trim_line : (d : Text) → IsBare d → trim_right is_line_end (entry d) ≡ entry d
trim_line d (full, h, _) =
    trim_right-cons is_line_end b'-' (32 ∷ d) refl
      (trim_right-cons is_line_end 32 d full (trim_right_free is_line_end d (ends d h)))
  where
    ends : (s : Text) → IsFree is_space s → IsFree is_line_end s
    ends [] k = refl
    ends (c ∷ s) k = ground (arith, ends s, k)

trim_entry : (d : Text) → IsBare d → trim_space (entry d) ≡ entry d
unfolding trim_space trim trim_left
trim_entry d (full, h, _) =
    trim_right-cons is_space b'-' (32 ∷ d) refl
      (trim_right-cons is_space 32 d full (trim_right_free is_space d h))

entry_rest-bare : (d : Text) → IsBare d → entry_rest (entry d) ≡ d
unfolding entry_rest trim_space trim trim_left
entry_rest-bare d (full, h, _) = rw (trim_left_free is_space d h) (trim_right_free is_space d h)

entry_name-bare : (key d : Text) → HasNoColon d → entry_name key d ≡ d
unfolding entry_name
entry_name-bare key d h = rw (entry_name, split_kv-none d h)

-- One bare entry: the item before it is finished, and a new one begun.
read_entry :
    (line_no : ℕ) (d : Text) (s : Reader)
    → IsBare d
    → read_line line_no 0 (entry d) s
      ≡ ok (record (flush_item s) { in_hosts = false; current = some (new_item d) })
unfolding read_line has_prefix
read_entry line_no d s h = rw (entry_rest-bare d h, entry_name-bare (txt "domain") d h.2)

reads_next :
    (line_no : ℕ) (d : Text) (ds : List Text) (s : Reader)
    → IsBare d
    → read_lines line_no (entry d ∷ ds) s
      ≡ read_lines
          (suc line_no)
          ds
          (record (flush_item s) { in_hosts = false; current = some (new_item d) })
unfolding read_lines has_prefix leading_spaces text_beq
reads_next line_no d ds s h =
    rw (read_lines, trim_line d h, trim_entry d h)
      (ap
        (λ r. elim r as (λ x. Checked Reader) [
          | err e ↦ err e
          | ok s' ↦ read_lines (suc line_no) ds s'
        ])
        (read_entry line_no d s h))

reads_none : (line_no : ℕ) (s : Reader) → read_lines line_no [] s ≡ ok s
unfolding read_lines
reads_none line_no s = refl

-- What `parseYAMLSubsetManifest` does after its loop, before the test for an empty list.
abbrev finish : Checked Reader → Checked (List ManifestItem)
finish (err e) = err e
finish (ok s) = ok (flush_item s).items

flush_item-no_host : (s : Reader) → s.current_host ≡ none → (flush_item s).current_host ≡ none
unfolding flush_item flush_host append_item
flush_item-no_host s c = ground (arith, c)

flush_item-items :
    (s : Reader) (item : ManifestItem)
    → s.current_host ≡ none
    → s.current ≡ some item
    → (flush_item s).items ≡ s.items ++ (item ∷ [])
unfolding flush_item flush_host append_item
flush_item-items s item c i = ground (arith, c, i)

-- The items that the flush of a reader has, after entries that were read one by one.
read_lines-bare :
    (line_no : ℕ) (ds : List Text) (s : Reader)
    → s.current_host ≡ none
    → All IsBare ds
    → finish (read_lines line_no (map entry ds) s) ≡ ok ((flush_item s).items ++ map new_item ds)
read_lines-bare line_no [] s c h =
    ap finish (reads_none line_no s) ∙ ap (λ is. ok is) (sym (append-nil (flush_item s).items))
read_lines-bare line_no (d ∷ ds) s c h =
    let s' : Reader = record (flush_item s) { in_hosts = false; current = some (new_item d) } in
    let no_host = flush_item-no_host s c in
    ap finish (reads_next line_no d (map entry ds) s h.0)
    ∙ read_lines-bare (suc line_no) ds s' no_host h.1
    ∙ ap (λ is. ok (is ++ map new_item ds)) (flush_item-items s' (new_item d) no_host refl)
    ∙ ap (λ is. ok is) (append_assoc (flush_item s).items (new_item d ∷ []) (map new_item ds))

one_line : (d : Text) → IsFree is_space d → IsFree (λ c. nat_beq c 10) d
one_line [] h = refl
one_line (c ∷ d) h = ground (arith, one_line d, h)

lines-IsFree : (ds : List Text) → All IsBare ds → All (IsFree (λ c. nat_beq c 10)) (map entry ds)
lines-IsFree [] h = tt
lines-IsFree (d ∷ ds) h = (one_line d h.0.1, lines-IsFree ds h.1)

parse_with :
    (text : Text) (r : Checked Reader) (i : ManifestItem) (is : List ManifestItem)
    → read_lines 0
        (split 10 text)
        (record { items = []; current = none; current_host = none; in_hosts = false })
      ≡ r
    → finish r ≡ ok (i ∷ is)
    → parse_yaml_subset_manifest text ≡ ok (i ∷ is)
unfolding parse_yaml_subset_manifest
parse_with text (err e) i is h k = cc
parse_with text (ok s) i is h k = ground (arith, h, k)

-- A manifest of bare domains, one entry a line, is read back as the items of these domains.
pub parse_yaml_subset_manifest-bare :
    (d : Text) (ds : List Text)
    → All IsBare (d ∷ ds)
    → parse_yaml_subset_manifest (join (10 ∷ []) (map entry (d ∷ ds))) ≡ ok (map new_item (d ∷ ds))
unfolding flush_item flush_host append_item
parse_yaml_subset_manifest-bare d ds h =
    parse_with (join (10 ∷ []) (map entry (d ∷ ds))) _ (new_item d) (map new_item ds)
      (ap (λ ls. read_lines 0 ls start)
        (split-join 10 (entry d) (map entry ds) (lines-IsFree (d ∷ ds) h)))
      (read_lines-bare 0 (d ∷ ds) start refl h)
  where
    start : Reader
    start = record { items = []; current = none; current_host = none; in_hosts = false }
