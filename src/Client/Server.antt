-- ===== src/Client/Server.antt =====
-- internal/engine/dnsclient/client.go: the address of a server (`SplitServer`), the classes of errors
-- (`DetectErrorKind`), and what is read from the lines of an answer.
use dnsgolang.Base.{
  ℕ, ◌+◌, Bool, true, ◌&&◌, ◌||◌, Option, none, some, List, [], ◌∷◌, ◌==◌, text_eq, if◌then◌else◌,
  nat_eq, map, ℤ,
}
use dnsgolang.Base.Text.{Text, txt, lower, trim, trim_space, is_dot, contains, cut}
use dnsgolang.Scan.Lines.{atoi}
use dnsgolang.Tasks.Create.{fields}

-- strings.Count of a byte.
unfoldable pub occurrences : ℕ → Text → ℕ
occurrences b [] = 0
occurrences b (c ∷ s) = if nat_eq.beq c b then occurrences b s + 1 else occurrences b s

abbrev pub with_port : Text → ℤ → Option ℤ → Text × ℤ
with_port host default none = (host, default)
with_port host default (some port) = (host, port)

-- What follows the bracket.
unfoldable pub port_of_tail : Text → Option ℤ
port_of_tail [] = none
port_of_tail (c ∷ digits) = if nat_eq.beq c b':' then atoi digits else none

-- An address without brackets; both parts are kept together where the port is no number.
unfoldable pub split_plain : Text → ℤ → Text × ℤ
unfolding occurrences cut atoi
split_plain s default =
    if nat_eq.beq (occurrences b':' s) 1
    then elim (cut b':' s) [
      | none ↦ (s, default)
      | some (host, port) ↦ elim (atoi port) [ none ↦ (s, default) | some p ↦ (host, p) ]
    ]
    else (s, default)

unfoldable pub split_trimmed : Text → ℤ → Text × ℤ
unfolding split_plain port_of_tail cut
split_trimmed [] default = ([], default)
split_trimmed (c ∷ s) default =
    if nat_eq.beq c b'['
    then elim (cut b']' s) [
      | none ↦ split_plain (c ∷ s) default
      | some (host, tail) ↦ with_port host default (port_of_tail tail)
    ]
    else split_plain (c ∷ s) default

unfoldable pub split_server : Text → ℤ → Text × ℤ
unfolding split_trimmed trim_space
split_server v default = split_trimmed (trim_space v) default

unfoldable pub detect_error_kind : Text → Text → Text
unfolding lower contains
detect_error_kind message rcode =
    let m = lower message in
    if contains (txt "connection refused") m || contains (txt "actively refused") m
    then txt "connection_refused"
    else if rcode == txt "SERVFAIL"
    then txt "servfail"
    else if contains (txt "timed out") m
        || (contains (txt "timeout") m || contains (txt "i/o timeout") m)
    then txt "timeout"
    else if rcode == txt "REFUSED"
    then txt "refused"
    else txt "dns_error"

-- strings.ReplaceAll of tabs by spaces, in each line.
unfoldable pub rr_lines : List Text → List Text
rr_lines rrs = map (map (λ c. if nat_eq.beq c 9 then 32 else c)) rrs

abbrev pub last_or : Text → List Text → Text
last_or x [] = x
last_or x (y ∷ ys) = last_or y ys

-- The type and the last field of a line with five fields or more.
abbrev pub type_and_last : List Text → Option (Text × Text)
type_and_last (a ∷ b ∷ c ∷ type ∷ e ∷ more) = some (type, last_or e more)
type_and_last _ = none

unfoldable pub read_line_end : Text → Option (Text × Text)
unfolding fields
read_line_end line = type_and_last (fields line)

-- The loops over the lines of a section: the last fields of the lines of some type.
unfoldable pub values_of : (Text → Bool) → (Text → Bool) → List Text → List Text
unfolding read_line_end
values_of of_type wanted [] = []
values_of of_type wanted (line ∷ lines) =
    let rest = values_of of_type wanted lines in
    elim (read_line_end line) [
      | none ↦ rest
      | some (type, value) ↦ if of_type type && wanted value then value ∷ rest else rest
    ]

abbrev pub any_text : Text → Bool
any_text s = true

abbrev pub is_ns : Text → Bool
is_ns type = type == txt "NS"

abbrev pub is_a_or_aaaa : Text → Bool
is_a_or_aaaa type = type == txt "A" || type == txt "AAAA"

-- The names among these, without their outer dots.
unfoldable pub ns_names_of : List Text → List Text
unfolding values_of
ns_names_of lines = map (trim is_dot) (values_of is_ns any_text lines)
