-- ===== src/Probing/Options/Tests.antt =====
-- internal/engine/prober/dns.go: the theorem on options at options with numbers out of range.
use dnsgolang.Base.{
  ◌≡◌, ◌↔◌, refl, true, false, none, some, [], ◌∷◌, if◌then◌else◌, ◌==◌, text_eq, text_beq, pos,
}
use dnsgolang.Base.Text.{Text, txt, lower, trim_space, trim, trim_left, trim_right, split}
use dnsgolang.Probing.Options.{
  Value, RawOptions, Scanners, DnsOptions, RootServers, clean_dns_options, read_options, checked,
  clamp, clamp_float, to_int, to_float, truncated, to_bool, str, upper, normalize_root_servers,
  new_servers, fields_func, infer_zone_domain, build_query_plan, normalize_plan,
}
use dnsgolang.Probing.Options.Clean.{IsClean, IsNan, clean_dns_options-IsClean}

abbrev scan : Scanners
scan = record { scan_int = λ s. none; scan_float = λ s. none; suffix_plus_one = λ s. some s }

abbrev given : Text → Value
given key =
    if key == txt "record_type"
    then Value.text (txt "axfr")
    else if key == txt "timeout"
    then Value.number (pos 90000) (txt "90")
    else Value.nothing

abbrev raw : RawOptions
raw = record {
  get = given;
  trace_root_servers = RootServers.one_text (txt "9.9.9.9,9.9.9.9");
  query_plan = [];
}

abbrev cleaned : DnsOptions
cleaned = record {
  resolver = txt "8.8.8.8";
  record_type = txt "AXFR";
  timeout = some 20000;
  transport = txt "udp";
  server_mode = txt "resolver";
  repeat_count = 1;
  edns = true;
  dnssec = false;
  random_label = false;
  compare_with_trust = false;
  trace_resolution_path = false;
  trace_root_servers = txt "9.9.9.9" ∷ [];
  trace_max_hops = 8;
  trace_max_ns_per_hop = 3;
  authority_method_analysis = false;
  latency_sample_count = 5;
  route_max_hops = 16;
  query_plan =
      record {
        query_name = txt "a.b";
        record_type = txt "AXFR";
        transport = txt "tcp";
        server_mode = txt "resolver";
        repeat_count = 1;
        edns = true;
        dnssec = false;
        random_label = false;
      }
      ∷ [];
  zone_domain = txt "a.b";
}

clean_dns_options-IsClean_example :
    IsClean cleaned × ((cleaned.timeout ≡ none) ↔ IsNan scan (raw.get (txt "timeout")))
unfolding clean_dns_options read_options checked clamp clamp_float to_int to_float truncated to_bool
    str upper normalize_root_servers new_servers fields_func infer_zone_domain build_query_plan
    normalize_plan lower trim_space trim trim_left trim_right split text_beq
clean_dns_options-IsClean_example = clean_dns_options-IsClean scan (txt "a.b") raw cleaned refl
