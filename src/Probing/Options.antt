-- ===== src/Probing/Options.antt =====
-- internal/engine/prober/dns.go: `CleanDNSOptions` with its helpers, and `InferZoneDomain` of
-- internal/engine/dnsclient/client.go. A number is a number of thousandths. The scanners of package
-- fmt and the list of public suffixes are parameters.
pub mod Clean
pub mod Tests
use dnsgolang.Base.{
  ℕ, suc, ◌+◌, ◌-◌, ◌*◌, ◌/◌, Bool, true, false, not, ◌&&◌, ◌||◌, Option, none, some, List, [], ◌∷◌,
  ◌++◌, map, if◌then◌else◌, is_empty, ◌==◌, text_eq, ltb, leb, nat_beq, ℤ, pos, negsuc, length,
  drop, keep,
}
use dnsgolang.Base.Text.{Text, txt, trim_space, trim, is_dot, lower, split, join}
use dnsgolang.Base.Sets.{has}
use dnsgolang.Trust.Discovery.{QueryStep}

-- A value of the options, of any type: nothing is nil, the others carry how `%v` prints them.
pub data Value : Type 0 where
  nothing : Value
  flag : Bool → Value
  number : (thousandths : ℤ) (printed : Text) → Value
  text : Text → Value
  other : (printed : Text) → Value

-- The value of `trace_root_servers`: a text, or the printed entries of a list.
pub data RootServers : Type 0 where
  no_servers : RootServers
  one_text : Text → RootServers
  entries : List Text → RootServers

-- The maps of the options and of each step of `query_plan`; a step that is no map is empty.
pub record RawOptions : Type 0 where
  pub get : Text → Value
  pub trace_root_servers : RootServers
  pub query_plan : List (Text → Value)

-- A `float64`, whose numbers are counted in thousandths.
pub data Float : Type 0 where
  finite : (thousandths : ℤ) → Float
  infinite : (negative : Bool) → Float
  nan : Float

-- `fmt.Sscanf` of "%d" and of "%g", which also reads infinities and NaN.
pub record Scanners : Type 0 where
  pub scan_int : Text → Option ℤ
  pub scan_float : Text → Option Float
  pub suffix_plus_one : Text → Option Text

-- The timeout is none where it is NaN.
pub record DnsOptions : Type 0 where
  pub resolver : Text
  pub record_type : Text
  pub timeout : Option ℕ
  pub transport : Text
  pub server_mode : Text
  pub repeat_count : ℕ
  pub edns : Bool
  pub dnssec : Bool
  pub random_label : Bool
  pub compare_with_trust : Bool
  pub trace_resolution_path : Bool
  pub trace_root_servers : List Text
  pub trace_max_hops : ℕ
  pub trace_max_ns_per_hop : ℕ
  pub authority_method_analysis : Bool
  pub latency_sample_count : ℕ
  pub route_max_hops : ℕ
  pub query_plan : List QueryStep
  pub zone_domain : Text

pub data OptionError : Type 0 where
  bad_record_type bad_transport bad_server_mode : Text → OptionError

pub data Cleaned {ℓ} (A : Type ℓ) : Type ℓ where
  good : A → Cleaned A
  bad : OptionError → Cleaned A

-- Zero is the fallback. The bounds that are used are not negative.
unfoldable pub clamp : ℤ → ℕ → ℕ → ℕ → ℕ
clamp (negsuc n) min max fallback = min
clamp (pos n) min max fallback =
    let v = if nat_beq n 0 then fallback else n in
    if ltb v min then min else if ltb max v then max else v

-- `int(n)` of a float drops what is behind the point.
unfoldable pub truncated : ℤ → ℤ
truncated (pos n) = pos (n / 1000)
truncated (negsuc n) = if nat_beq ((n + 1) / 1000) 0 then pos 0 else negsuc ((n + 1) / 1000 - 1)

abbrev pub or_else : Option ℤ → ℤ → ℤ
or_else none fallback = fallback
or_else (some v) fallback = v

-- Every test of NaN fails, so that it is given back.
unfoldable pub clamp_float : Float → ℕ → ℕ → ℕ → Option ℕ
unfolding clamp
clamp_float (finite v) min max fallback = some (clamp v min max fallback)
clamp_float (infinite true) min max fallback = some min
clamp_float (infinite false) min max fallback = some max
clamp_float nan min max fallback = none

abbrev pub or_float : Option Float → ℤ → Float
or_float none fallback = finite fallback
or_float (some v) fallback = v

unfoldable pub to_float : Scanners → Value → ℤ → Float
to_float scan nothing fallback = finite fallback
to_float scan (flag b) fallback = finite fallback
to_float scan (number v printed) fallback = finite v
to_float scan (text s) fallback = or_float (scan.scan_float s) fallback
to_float scan (other printed) fallback = finite fallback

unfoldable pub to_int : Scanners → Value → ℤ → ℤ
unfolding truncated
to_int scan nothing fallback = fallback
to_int scan (flag b) fallback = fallback
to_int scan (number v printed) fallback = truncated v
to_int scan (text s) fallback = or_else (scan.scan_int s) fallback
to_int scan (other printed) fallback = fallback

unfoldable pub to_bool : Value → Bool → Bool
to_bool nothing fallback = fallback
to_bool (flag b) fallback = b
to_bool (number v printed) fallback = fallback
to_bool (text s) fallback =
    if has (lower s) (txt "true" ∷ txt "1" ∷ txt "yes" ∷ [])
    then true
    else if has (lower s) (txt "false" ∷ txt "0" ∷ txt "no" ∷ [] ∷ [])
    then false
    else fallback
to_bool (other printed) fallback = fallback

abbrev pub printed_or : Text → Text → Text
printed_or s fallback = if not (is_empty s) && not (s == txt "<nil>") then s else fallback

unfoldable pub str : Value → Text → Text
str nothing fallback = fallback
str (flag b) fallback = if b then txt "true" else txt "false"
str (number v printed) fallback = printed_or printed fallback
str (text s) fallback = if is_empty s then fallback else s
str (other printed) fallback = printed_or printed fallback

abbrev pub upper_byte : ℕ → ℕ
upper_byte c = if leb 97 c && leb c 122 then c - 32 else c

-- strings.ToUpper
unfoldable pub upper : Text → Text
upper s = map upper_byte s

abbrev pub valid_record_types : List Text
valid_record_types =
    txt "A"
    ∷ txt "AAAA"
    ∷ txt "CNAME"
    ∷ txt "MX"
    ∷ txt "NS"
    ∷ txt "TXT"
    ∷ txt "SOA"
    ∷ txt "PTR"
    ∷ txt "AXFR"
    ∷ []

abbrev pub transports : List Text
transports = txt "udp" ∷ txt "tcp" ∷ []

abbrev pub server_modes : List Text
server_modes = txt "resolver" ∷ txt "authoritative" ∷ []

abbrev pub first_non_empty : Text → Text → Text
first_non_empty v fallback = if is_empty v then fallback else v

abbrev pub is_separator : ℕ → Bool
is_separator c = nat_beq c 32 || (nat_beq c 44 || nat_beq c 59)

-- `strings.FieldsFunc`: the parts between blanks, commas and semicolons that are not empty.
unfoldable pub fields_func : Text → List Text
fields_func s =
    keep (λ f. not (is_empty f)) (split 32 (map (λ c. if is_separator c then 32 else c) s))

abbrev pub candidates : RootServers → List Text
candidates no_servers = []
candidates (one_text s) = fields_func s
candidates (entries es) = es

-- The loop over the candidates, with the servers so far; it ends at the eighth.
unfoldable pub new_servers : ℕ → List Text → List Text → List Text
new_servers room seen [] = []
new_servers room seen (item ∷ items) =
    let current = trim_space item in
    let rest = new_servers room seen items in
    let more = new_servers (room - 1) (current ∷ seen) items in
    if is_empty current || has current seen
    then rest
    else current ∷ (if leb room 1 then [] else more)

unfoldable pub normalize_root_servers : RootServers → List Text
unfolding new_servers fields_func
normalize_root_servers v = new_servers 8 [] (candidates v)

-- The three checks that a probe and a step of a plan share.
unfoldable pub checked {ℓ} : {A : Type ℓ} → Text → Text → Text → Cleaned A → Cleaned A
checked record_type transport server_mode rest =
    if not (has record_type valid_record_types)
    then bad (bad_record_type record_type)
    else if not (has transport transports)
    then bad (bad_transport transport)
    else if not (has server_mode server_modes)
    then bad (bad_server_mode server_mode)
    else rest

-- A transfer of a zone goes over TCP.
abbrev pub transport_for : Text → Text → Text
transport_for record_type transport = if record_type == txt "AXFR" then txt "tcp" else transport

unfoldable pub normalize_query_step : Scanners → Text → (Text → Value) → Cleaned QueryStep
unfolding checked clamp to_int to_bool str upper
normalize_query_step scan target get =
    let record_type =
      upper (str (get (txt "record_type")) (str (get (txt "query_type")) (txt "A"))) in
    let transport = lower (str (get (txt "transport")) (txt "udp")) in
    let server_mode = lower (str (get (txt "server_mode")) (txt "resolver")) in
    let step : QueryStep = record {
      query_name = trim is_dot (trim_space (str (get (txt "query_name")) target));
      record_type = record_type;
      transport = transport_for record_type transport;
      server_mode = server_mode;
      repeat_count = clamp (to_int scan (get (txt "repeat_count")) (pos 1)) 1 5 1;
      edns = to_bool (get (txt "edns")) true;
      dnssec = to_bool (get (txt "dnssec")) false;
      random_label = to_bool (get (txt "random_label")) false;
    } in
    checked record_type transport server_mode (good step)

abbrev pub and_step : Cleaned QueryStep → Cleaned (List QueryStep) → Cleaned (List QueryStep)
and_step (bad e) rest = bad e
and_step (good step) (bad e) = bad e
and_step (good step) (good steps) = good (step ∷ steps)

unfoldable pub normalize_plan : Scanners → Text → List (Text → Value) → Cleaned (List QueryStep)
unfolding normalize_query_step
normalize_plan scan target [] = good []
normalize_plan scan target (get ∷ more) =
    and_step (normalize_query_step scan target get) (normalize_plan scan target more)

abbrev pub last_two : List Text → List Text
last_two labels = drop (length labels - 2) labels

unfoldable pub infer_zone_domain : Scanners → Text → Text
infer_zone_domain scan fqdn =
    let value = lower (trim is_dot (trim_space fqdn)) in
    let labels = split 46 value in
    if is_empty value then [] else elim (scan.suffix_plus_one value) [
      | some host ↦ host
      | none ↦ if leb (length labels) 2 then value else join (txt ".") (last_two labels)
    ]

-- The plan of one step, for options without a plan; the step has no random label.
unfoldable pub build_query_plan : Text → DnsOptions → List QueryStep
build_query_plan target opts =
    record {
      query_name = trim is_dot target;
      record_type = opts.record_type;
      transport = transport_for opts.record_type opts.transport;
      server_mode = opts.server_mode;
      repeat_count = opts.repeat_count;
      edns = opts.edns;
      dnssec = opts.dnssec;
      random_label = false;
    }
    ∷ []

abbrev pub with_plan : DnsOptions → Cleaned (List QueryStep) → Cleaned DnsOptions
with_plan opts (bad e) = bad e
with_plan opts (good plan) = good (record opts { query_plan = plan })

-- The options as they are read, before their checks and without a plan.
unfoldable pub read_options : Scanners → Text → RawOptions → DnsOptions
unfolding clamp clamp_float to_int to_float to_bool str upper normalize_root_servers
    infer_zone_domain
read_options scan target raw =
    let record_type = upper (str (raw.get (txt "record_type")) (txt "A")) in
    let transport = lower (str (raw.get (txt "transport")) (txt "udp")) in
    let server_mode = lower (str (raw.get (txt "server_mode")) (txt "resolver")) in
    let compare_with_trust = to_bool (raw.get (txt "compare_with_trust")) false in
    let int = λ (key : Text) (default min max : ℕ).
      clamp (to_int scan (raw.get key) (pos default)) min max default in
    record {
      resolver =
          first_non_empty (trim_space (str (raw.get (txt "resolver")) (txt "8.8.8.8")))
            (txt "8.8.8.8");
      record_type = record_type;
      timeout = clamp_float (to_float scan (raw.get (txt "timeout")) (pos 3000)) 1000 20000 3000;
      transport = transport;
      server_mode = server_mode;
      repeat_count = int (txt "repeat_count") 1 1 5;
      edns = to_bool (raw.get (txt "edns")) true;
      dnssec = to_bool (raw.get (txt "dnssec")) false;
      random_label = to_bool (raw.get (txt "random_label")) false;
      compare_with_trust = compare_with_trust;
      trace_resolution_path = to_bool (raw.get (txt "trace_resolution_path")) compare_with_trust;
      trace_root_servers = normalize_root_servers raw.trace_root_servers;
      trace_max_hops = int (txt "trace_max_hops") 8 1 8;
      trace_max_ns_per_hop = int (txt "trace_max_ns_per_hop") 3 1 3;
      authority_method_analysis =
          to_bool (raw.get (txt "authority_method_analysis")) compare_with_trust;
      latency_sample_count = int (txt "latency_sample_count") 5 1 5;
      route_max_hops = int (txt "route_max_hops") 16 3 30;
      query_plan = [];
      zone_domain = infer_zone_domain scan target;
    }

unfoldable pub clean_dns_options : Scanners → Text → RawOptions → Cleaned DnsOptions
unfolding checked read_options build_query_plan normalize_plan
clean_dns_options scan target raw =
    let opts = read_options scan target raw in
    checked opts.record_type opts.transport opts.server_mode (
      if is_empty raw.query_plan
      then good (record opts { query_plan = build_query_plan target opts })
      else with_plan opts (normalize_plan scan target raw.query_plan))
