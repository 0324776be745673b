-- ===== src/Batch/Options.antt =====
-- internal/service/batch.go: `CleanBatchOptions`, the options of a batch for each protocol; those of a DNS
-- probe are cleaned by Probing/Options; how JSON gives a text back is the parameter `json`. A value of the options is that of Probing/Options too.
pub mod Right
pub mod Tests
use dnsgolang.Base.{
  ℕ, Bool, true, false, not, ◌&&◌, ◌||◌, Option, none, some, List, [], ◌∷◌, if◌then◌else◌, is_empty,
  ◌==◌, text_eq, ℤ, pos, negsuc, map,
}
use dnsgolang.Base.Text.{Text, txt}
use dnsgolang.Base.Sets.{has}
use dnsgolang.Trust.Discovery.{QueryStep}
use dnsgolang.Probing.Options.{
  Value, nothing, flag, number, text, other, RawOptions, Scanners, DnsOptions, OptionError, Cleaned,
  good, bad, clamp, truncated, upper, clean_dns_options,
}

pub data CleanOptions : Type 0 where
  http : (method : Text) (timeout : ℕ) (follow_redirects verify_tls : Bool) → CleanOptions
  dns : DnsOptions → CleanOptions
  ping : (count timeout : ℕ) → CleanOptions
  route : (max_hops query_count timeout : ℕ) (numeric : Bool) → CleanOptions
  no_options : CleanOptions

pub data BatchOptionError : Type 0 where
  bad_dns : OptionError → BatchOptionError
  bad_method : BatchOptionError

pub data Answered {ℓ} (A : Type ℓ) : Type ℓ where
  given : A → Answered A
  wrong : BatchOptionError → Answered A

unfoldable pub str_any : Value → Text → Text
str_any nothing fallback = fallback
str_any (flag b) fallback = fallback
str_any (number v printed) fallback = fallback
str_any (text s) fallback = if is_empty s then fallback else s
str_any (other printed) fallback = fallback

unfoldable pub to_int_any : Value → ℤ → ℤ
to_int_any nothing fallback = fallback
to_int_any (flag b) fallback = fallback
to_int_any (number v printed) fallback = truncated v
to_int_any (text s) fallback = fallback
to_int_any (other printed) fallback = fallback

unfoldable pub to_bool_any : Value → Bool → Bool
to_bool_any nothing fallback = fallback
to_bool_any (flag b) fallback = b
to_bool_any (number v printed) fallback = fallback
to_bool_any (text s) fallback = fallback
to_bool_any (other printed) fallback = fallback

-- A step and the options as they come back from JSON, where `json` is how a text does: invalid bytes
-- are replaced.
unfoldable pub step_of_json : (Text → Text) → QueryStep → QueryStep
step_of_json json s = record s {
  query_name = json s.query_name;
  record_type = json s.record_type;
  transport = json s.transport;
  server_mode = json s.server_mode;
}

unfoldable pub of_json : (Text → Text) → DnsOptions → DnsOptions
unfolding step_of_json
of_json json o = record o {
  resolver = json o.resolver;
  record_type = json o.record_type;
  transport = json o.transport;
  server_mode = json o.server_mode;
  trace_root_servers = map json o.trace_root_servers;
  query_plan = map (step_of_json json) o.query_plan;
  zone_domain = json o.zone_domain;
}

-- JSON refuses NaN; the error is dropped, and the map stays empty.
unfoldable pub struct_to_map : (Text → Text) → DnsOptions → CleanOptions
unfolding of_json
struct_to_map json o = elim o.timeout [ none ↦ no_options | some t ↦ dns (of_json json o) ]

abbrev pub from_dns : (Text → Text) → Cleaned DnsOptions → Answered CleanOptions
from_dns json (good options) = given (struct_to_map json options)
from_dns json (bad e) = wrong (bad_dns e)

unfoldable pub clean_http : (Text → Value) → Answered CleanOptions
unfolding str_any to_int_any to_bool_any
clean_http get =
    let method = upper (str_any (get (txt "method")) (txt "GET")) in
    if not (method == txt "GET") && not (method == txt "HEAD")
    then wrong bad_method
    else given (
        http method (clamp (to_int_any (get (txt "timeout")) (pos 10)) 1 30 10)
          (to_bool_any (get (txt "follow_redirects")) true)
          (to_bool_any (get (txt "verify_tls")) true))

unfoldable pub clean_single_batch_options :
    (Text → Text) → Scanners → Text → RawOptions → Answered CleanOptions
unfolding clean_http to_int_any to_bool_any struct_to_map
clean_single_batch_options json scan protocol raw =
    let int = λ (key : Text) (default max : ℕ).
      clamp (to_int_any (raw.get key) (pos default)) 1 max default in
    if protocol == txt "dns"
    then from_dns json (clean_dns_options scan (txt "example.com") raw)
    else if protocol == txt "http"
    then clean_http raw.get
    else if protocol == txt "ping"
    then given (ping (int (txt "count") 4 10) (int (txt "timeout") 2 10))
    else if protocol == txt "mtr" || protocol == txt "traceroute"
    then given (
        route (int (txt "max_hops") 20 30) (int (txt "query_count") 3 10) (int (txt "timeout") 2 10)
          (to_bool_any (raw.get (txt "numeric")) true))
    else given no_options

abbrev pub and_options :
    Text
    → Answered CleanOptions
    → Answered (List (Text × CleanOptions))
    → Answered (List (Text × CleanOptions))
and_options protocol (wrong e) rest = wrong e
and_options protocol (given o) (wrong e) = wrong e
and_options protocol (given o) (given os) = given ((protocol, o) ∷ os)

-- The loop over the protocols, with the options that there are for each.
unfoldable pub clean_each :
    (Text → Text)
    → Scanners
    → (Text → RawOptions)
    → List Text
    → Answered (List (Text × CleanOptions))
unfolding clean_single_batch_options
clean_each json scan options [] = given []
clean_each json scan options (p ∷ ps) =
    and_options p (clean_single_batch_options json scan p (options p))
      (clean_each json scan options ps)

-- The protocol "all" has options for each of the five; any other has its own.
unfoldable pub clean_batch_options :
    (Text → Text)
    → Scanners
    → Text
    → RawOptions
    → (Text → RawOptions)
    → Answered (List (Text × CleanOptions))
unfolding clean_each
clean_batch_options json scan protocol raw sub =
    if protocol == txt "all"
    then clean_each json scan sub
        (txt "http" ∷ txt "ping" ∷ txt "dns" ∷ txt "mtr" ∷ txt "traceroute" ∷ [])
    else clean_each json scan (λ p. raw) (protocol ∷ [])
