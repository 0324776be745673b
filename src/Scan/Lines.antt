-- ===== src/Scan/Lines.antt =====
-- internal/service/trust.go and internal/service/scanner.go: a line of a DNS answer (`parseRRLine`), and
-- lists without repetition (`appendUnique`). `atoi` is strconv.Atoi on 64 bits, and white space is
-- that of ASCII.
use dnsgolang.Base.{
  ℕ, ◌+◌, ◌-◌, ◌*◌, ◌^◌, ◌&&◌, Option, none, some, List, [], ◌∷◌, ◌++◌, ◌==◌, text_eq,
  if◌then◌else◌, leb, ltb, nat_eq, length, ℤ, pos, negsuc,
}
use dnsgolang.Base.Text.{Text, txt, lower, trim_space, join}
use dnsgolang.Base.Sets.{has}
use dnsgolang.Probing.Options.{upper}
use dnsgolang.Risk.Types.{RecordObserved}
use dnsgolang.Tasks.Create.{fields}
use dnsgolang.Trust.Manifest.{normalize_fqdn}

-- The number that the digits continue; `none` where something else is among them.
unfoldable pub digits : ℕ → Text → Option ℕ
digits n [] = some n
digits n (c ∷ s) = if leb b'0' c && leb c b'9' then digits (n * 10 + (c - b'0')) s else none

unfoldable pub unsigned : Text → Option ℕ
unfolding digits
unsigned [] = none
unsigned (c ∷ s) = digits 0 (c ∷ s)

abbrev pub positive : Option ℕ → Option ℤ
positive none = none
positive (some n) = if ltb n (2 ^ 63) then some (pos n) else none

abbrev pub negative : Option ℕ → Option ℤ
negative none = none
negative (some n) =
    if nat_eq.beq n 0 then some (pos 0) else if leb n (2 ^ 63) then some (negsuc (n - 1)) else none

unfoldable pub atoi : Text → Option ℤ
unfolding unsigned
atoi [] = none
atoi (c ∷ s) =
    if nat_eq.beq c b'-'
    then negative (unsigned s)
    else if nat_eq.beq c b'+'
    then positive (unsigned s)
    else positive (unsigned (c ∷ s))

-- The TTL, where the next part is a number, and the parts after it.
unfoldable pub take_ttl : List Text → Option ℤ × List Text
unfolding atoi
take_ttl [] = (none, [])
take_ttl (part ∷ parts) = elim (atoi part) [
  | none ↦ (none, part ∷ parts)
  | some n ↦ (some n, parts)
]

unfoldable pub skip_class : List Text → List Text
skip_class [] = []
skip_class (part ∷ parts) = if lower part == txt "in" then parts else part ∷ parts

abbrev pub row_of_parts : Text → Text → Option ℤ → List Text → Option RecordObserved
row_of_parts section name ttl [] = none
row_of_parts section name ttl (type ∷ values) = some (record {
  section = section;
  name = name;
  type = upper type;
  value = trim_space (join (txt " ") values);
  ttl = ttl;
})

abbrev pub parse_parts : Text → List Text → Option RecordObserved
parse_parts section [] = none
parse_parts section (name ∷ parts) =
    let (ttl, after) = take_ttl parts in
    row_of_parts section (normalize_fqdn name) ttl (skip_class after)

unfoldable pub parse_rr_line : Text → Text → Option RecordObserved
unfolding take_ttl skip_class fields upper normalize_fqdn trim_space join lower
parse_rr_line line section =
    let parts = fields (trim_space line) in
    if ltb (length parts) 4 then none else parse_parts section parts

unfoldable pub append_unique : List Text → Text → List Text
append_unique list v = if has v list then list else list ++ (v ∷ [])
