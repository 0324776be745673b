-- ===== src/Tasks/Detail.antt =====
-- internal/service/tasks.go: `protocolDetailForAPI`. A detail is the list of its entries, with each
-- value as the JSON text that stands for it.
use dnsgolang.Base.{List, [], ◌∷◌, if◌then◌else◌, ◌==◌, text_eq}
use dnsgolang.Base.Text.{Text, txt}

abbrev pub Detail : Type 0
Detail = List (Text × Text)

-- The map `rename` of each protocol.
abbrev pub renames : Text → List (Text × Text)
renames protocol =
    if protocol == txt "dns"
    then (txt "resolver_ip", txt "resolverIp")
      ∷ (txt "record_type", txt "recordType")
      ∷ (txt "query_ms", txt "queryMs")
      ∷ (txt "resolved_ips", txt "resolvedIps")
      ∷ (txt "cname_chain", txt "cnameChain")
      ∷ []
    else if protocol == txt "http"
    then (txt "http_status", txt "httpStatus")
      ∷ (txt "dns_ms", txt "dnsMs")
      ∷ (txt "connect_ms", txt "connectMs")
      ∷ (txt "ttfb_ms", txt "ttfbMs")
      ∷ (txt "total_ms", txt "totalMs")
      ∷ (txt "redirect_count", txt "redirectCount")
      ∷ (txt "body_size", txt "bodySize")
      ∷ (txt "response_headers", txt "responseHeaders")
      ∷ (txt "tls_info", txt "tlsInfo")
      ∷ (txt "remote_ip", txt "remoteIp")
      ∷ (txt "body_preview", txt "bodyPreview")
      ∷ []
    else if protocol == txt "ping"
    then (txt "sent_count", txt "sentCount")
      ∷ (txt "recv_count", txt "recvCount")
      ∷ (txt "loss_pct", txt "lossPct")
      ∷ (txt "min_ms", txt "minMs")
      ∷ (txt "avg_ms", txt "avgMs")
      ∷ (txt "max_ms", txt "maxMs")
      ∷ (txt "mdev_ms", txt "mdevMs")
      ∷ (txt "raw_output_text", txt "rawOutput")
      ∷ []
    else if protocol == txt "mtr"
    then (txt "max_hops", txt "maxHops")
      ∷ (txt "probe_count", txt "probeCount")
      ∷ (txt "hop_count", txt "hopCount")
      ∷ (txt "destination_reached", txt "destinationReached")
      ∷ (txt "packet_loss_pct", txt "packetLossPct")
      ∷ (txt "best_latency_ms", txt "bestLatencyMs")
      ∷ (txt "avg_latency_ms", txt "avgLatencyMs")
      ∷ (txt "worst_latency_ms", txt "worstLatencyMs")
      ∷ (txt "jitter_ms", txt "jitterMs")
      ∷ (txt "raw_output_text", txt "rawOutput")
      ∷ []
    else if protocol == txt "traceroute"
    then (txt "max_hops", txt "maxHops")
      ∷ (txt "query_count", txt "queryCount")
      ∷ (txt "hop_count", txt "hopCount")
      ∷ (txt "destination_reached", txt "destinationReached")
      ∷ (txt "resolved_ip", txt "resolvedIp")
      ∷ (txt "raw_output_text", txt "rawOutput")
      ∷ []
    else []

unfoldable pub renamed : List (Text × Text) → Text → Text
renamed [] key = key
renamed ((old, new) ∷ more) key = if key == old then new else renamed more key

unfoldable pub rename_keys : List (Text × Text) → Detail → Detail
unfolding renamed
rename_keys table [] = []
rename_keys table ((key, value) ∷ detail) = (renamed table key, value) ∷ rename_keys table detail

unfoldable pub protocol_detail_for_api : Text → Detail → Detail
unfolding rename_keys
protocol_detail_for_api protocol detail = rename_keys (renames protocol) detail
