-- ===== src/Client/Trace.antt =====
-- internal/engine/dnsclient/client.go: `TraceResolutionPath` and `pickResolver`. The list of
-- extra servers, which is always empty, and the printed summary are left out.
pub mod Walk
use dnsgolang.Base.{
  ℕ, zero, suc, Bool, true, false, ◌&&◌, Option, none, some, List, [], ◌∷◌, ◌++◌, if◌then◌else◌,
  is_empty, nat_eq, take,
}
use dnsgolang.Base.Text.{Text, txt, split, join}
use dnsgolang.Client.Server.{values_of, any_text, ns_names_of}
use dnsgolang.Client.Query.{Network, ClientResult, ask_resolver}
use dnsgolang.Trust.Manifest.{normalize_fqdn}

pub record TraceHop : Type 0 where
  pub server : Text
  pub query : Text
  pub rcode : Text
  pub ns : List Text
  pub glue : List Text

pub record TraceResult : Type 0 where
  pub hops : List TraceHop
  pub broken_at : Text

abbrev pub public_root_hint : List Text
public_root_hint =
    txt "199.9.14.201"
    ∷ txt "192.33.4.12"
    ∷ txt "199.7.91.13"
    ∷ txt "192.203.230.10"
    ∷ txt "192.5.5.241"
    ∷ txt "192.112.36.4"
    ∷ txt "198.97.190.53"
    ∷ txt "192.36.148.17"
    ∷ txt "192.58.128.30"
    ∷ txt "193.0.14.129"
    ∷ txt "199.7.83.42"
    ∷ txt "202.12.27.33"
    ∷ []

abbrev pub first_root : Text
first_root = txt "198.41.0.4"

unfoldable pub pick_resolver : Text → Text → Text
pick_resolver configured server = if is_empty configured then server else configured

-- What is asked besides the name.
pub record TraceOptions : Type 0 where
  pub resolver_ip : Text
  pub timeout_ms : ℕ
  pub max_ns_per_hop : ℕ

abbrev pub after_hop : TraceHop → TraceResult → TraceResult
after_hop hop rest = record rest { hops = hop ∷ rest.hops }

abbrev pub broken : TraceHop → TraceResult
broken hop = record { hops = hop ∷ []; broken_at = hop.query }

abbrev pub whole : TraceResult
whole = record { hops = []; broken_at = [] }

-- What comes after a hop: the first of the next servers is asked, if there is one.
unfoldable pub go_on : TraceHop → (Text → TraceResult) → List Text → TraceResult
go_on hop trace [] = broken hop
go_on hop trace (next ∷ others) = after_hop hop (trace next)

module _ (net : Network) (opts : TraceOptions) where
  -- One step at a server: its names of servers from the answer, else from the authority section.
  unfoldable pub hop_at : Text → Text → TraceHop
  unfolding ask_resolver ns_names_of values_of
  hop_at server name =
      let res = ask_resolver net name (txt "NS") server opts.timeout_ms false false in
      let named = ns_names_of res.answer in
      record {
        server = server;
        query = name;
        rcode = res.rcode;
        ns = if is_empty named then ns_names_of res.authority else named;
        glue = values_of any_text net.is_ip res.additional;
      }

  -- The addresses of these servers.
  unfoldable pub addresses : Text → List Text → List Text
  unfolding ask_resolver values_of pick_resolver
  addresses server [] = []
  addresses server (ns ∷ more) =
      let found =
        if net.is_ip ns
        then ns ∷ []
        else values_of any_text net.is_ip
            (ask_resolver net ns (txt "A") (pick_resolver opts.resolver_ip server) opts.timeout_ms
              false true).answer in
      found ++ addresses server more

  unfoldable pub next_servers : TraceHop → List Text
  unfolding addresses
  next_servers hop = take opts.max_ns_per_hop (
      if is_empty hop.glue
      then addresses hop.server (take opts.max_ns_per_hop hop.ns)
      else hop.glue)

  -- The loop, with the rounds and the labels that are left; the first of the servers is asked.
  unfoldable pub trace_from : ℕ → List Text → Text → TraceResult
  unfolding hop_at next_servers go_on
  trace_from zero labels server = whole
  trace_from (suc rounds) [] server = whole
  trace_from (suc rounds) (label ∷ labels) server =
      let name = join (txt ".") (label ∷ labels) in
      let hop = hop_at server name in
      let rest = go_on hop (λ next. trace_from rounds labels next) (next_servers hop) in
      if is_empty name then whole else if is_empty hop.ns then broken hop else rest

abbrev pub or_number : ℕ → ℕ → ℕ
or_number n default = if nat_eq.beq n 0 then default else n

-- A number that is not positive is 0 here.
unfoldable pub trace_resolution_path :
    Network
    → (query_name resolver_ip : Text) → (timeout_ms : ℕ) → (root_servers : List Text)
    → (max_hops max_ns_per_hop : ℕ) → TraceResult
unfolding trace_from normalize_fqdn
trace_resolution_path net query_name resolver_ip timeout_ms [] max_hops max_ns_per_hop =
    trace_from net
      (record {
        resolver_ip = resolver_ip;
        timeout_ms = timeout_ms;
        max_ns_per_hop = or_number max_ns_per_hop 3;
      })
      (or_number max_hops 8) (split b'.' (normalize_fqdn query_name)) first_root
trace_resolution_path net query_name resolver_ip timeout_ms (root ∷ roots) max_hops max_ns_per_hop =
    trace_from net
      (record {
        resolver_ip = resolver_ip;
        timeout_ms = timeout_ms;
        max_ns_per_hop = or_number max_ns_per_hop 3;
      })
      (or_number max_hops 8) (split b'.' (normalize_fqdn query_name)) root
