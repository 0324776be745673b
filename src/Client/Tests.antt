-- ===== src/Client/Tests.antt =====
-- internal/engine/dnsclient/client.go: queries and traces over a small network.
use dnsgolang.Base.{◌≡◌, refl, Bool, true, false, none, [], ◌∷◌, ◌==◌, text_eq, text_beq, pos}
use dnsgolang.Base.Text.{txt, join}
use dnsgolang.Client.Server.{split_server, detect_error_kind}
use dnsgolang.Client.Query.{Spec, Network, Exchange, answered, failed, unopened}
use dnsgolang.Client.Trace.{TraceOptions, trace_from}
use dnsgolang.Client.Trace.Walk.{IsWalk, trace_from-IsWalk}

-- The root refers to a server of cn, every other question runs into a timeout.
abbrev reply : Bool → Exchange
reply true =
    answered (txt "NOERROR") 12000 [] (txt "cn. 60 IN NS a.dns.cn." ∷ [])
      (txt "a.dns.cn. 60 IN A 1.2.3.4" ∷ [])
reply false = failed true false (txt "i/o timeout")

abbrev network : Network
network = record {
  exchange = λ q. reply (q.host == txt "198.41.0.4");
  transfer = λ host port name. unopened (txt "refused");
  known_type = λ type. true;
  is_ip = λ s. s == txt "1.2.3.4";
  scan = record { scan_int = λ s. none; scan_float = λ s. none; suffix_plus_one = λ s. none };
}

abbrev spec : Spec
spec = record {
  query_name = txt "a.cn";
  record_type = txt "A";
  resolver_ip = txt "8.8.8.8:53";
  timeout_ms = 0;
  transport = txt "udp";
  server_mode = txt "authoritative";
  edns = true;
  dnssec = false;
  recursion_desired = true;
}

abbrev options : TraceOptions
options = record { resolver_ip = []; timeout_ms = 3000; max_ns_per_hop = 3 }

trace_from-IsWalk_example :
    let labels = txt "a" ∷ txt "cn" ∷ [] in
    IsWalk network options 8 labels (trace_from network options 8 labels (txt "198.41.0.4"))
unfolding join
trace_from-IsWalk_example =
    trace_from-IsWalk network options 8 (txt "a" ∷ txt "cn" ∷ []) (txt "198.41.0.4")
      (refl, (refl, tt))

-- The server of cn is asked for the name cn, not for a.cn.
trace_a_cn :
    (trace_from network options 8 (txt "a" ∷ txt "cn" ∷ []) (txt "198.41.0.4")).broken_at ≡ txt "cn"
unfolding trace_from text_beq join
trace_a_cn = refl

split_server_ports : split_server (txt " 8.8.8.8:5353 ") (pos 53) ≡ (txt "8.8.8.8", pos 5353)
unfolding split_server
split_server_ports = refl

split_server_v6 : split_server (txt "[::1]:54") (pos 53) ≡ (txt "::1", pos 54)
unfolding split_server
split_server_v6 = refl

detect_error_kind_order :
    detect_error_kind (txt "Connection refused") (txt "SERVFAIL") ≡ txt "connection_refused"
unfolding detect_error_kind
detect_error_kind_order = refl
