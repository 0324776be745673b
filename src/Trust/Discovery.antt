-- ===== src/Trust/Discovery.antt =====
-- internal/service/trust.go: `parseManifest` with its choice of a format, and
-- `buildHostDiscoveryPlan`, the queries by which the records of a host are discovered; a step is the
-- `QueryStep` of internal/engine/prober/dns.go. `parse_json` stands for the reader of the JSON form,
-- which is package encoding/json at work.
use dnsgolang.Base.{
  ℕ, Bool, true, false, ◌||◌, List, [], ◌∷◌, ◌≡◌, arith, any, if◌then◌else◌, ◌==◌, text_eq,
  text_beq, is_empty,
}
use dnsgolang.Base.Text.{Text, txt, lower, contains, has_prefix, trim_space}
use dnsgolang.Trust.Manifest.{
  ManifestItem, Checked, ok, err, ◌>>=◌, empty_manifest, unsupported_format, normalize_fqdn,
}
use dnsgolang.Trust.Manifest.Yaml.{parse_yaml_subset_manifest}

-- The format that is read, for a text that is trimmed.
unfoldable pub chosen_format : Text → Text → Text
chosen_format text format_code =
    let format = lower format_code in
    if is_empty format || format == txt "auto"
    then (if has_prefix (txt "[") text || has_prefix (txt "{") text then txt "json" else txt "yaml")
    else format

unfoldable pub parse_manifest :
    (Text → Checked (List ManifestItem)) → Text → Text → Checked (List ManifestItem × Text)
unfolding chosen_format
parse_manifest parse_json text format_code =
    let trimmed = trim_space text in
    let format = chosen_format trimmed format_code in
    if is_empty trimmed
    then err empty_manifest
    else if format == txt "json"
    then (parse_json trimmed >>= λ items. ok (items, txt "json"))
    else if format == txt "yaml" || format == txt "text"
    then (parse_yaml_subset_manifest trimmed >>= λ items. ok (items, txt "yaml"))
    else err (unsupported_format format)

pub record QueryStep : Type 0 where
  pub query_name : Text
  pub record_type : Text
  pub transport : Text
  pub server_mode : Text
  pub repeat_count : ℕ
  pub edns : Bool
  pub dnssec : Bool
  pub random_label : Bool

-- The closure `udp`.
unfoldable pub udp : Text → Text → QueryStep
udp name rtype = record {
  query_name = name;
  record_type = rtype;
  transport = txt "udp";
  server_mode = txt "resolver";
  repeat_count = 1;
  edns = true;
  dnssec = false;
  random_label = false;
}

-- The host by its name and notes, of the zone with this domain.
unfoldable pub build_host_discovery_plan : Text → Text → Text → List QueryStep
unfolding udp
build_host_discovery_plan fqdn host_notes zone_domain =
    let notes = lower host_notes in
    let is_apex = normalize_fqdn fqdn == normalize_fqdn zone_domain in
    let is_ns_host =
      contains (txt "role=ns_host") notes
      || (has_prefix (txt "ns host") notes || has_prefix (txt "ns") fqdn) in
    if is_apex
    then udp zone_domain (txt "A")
      ∷ udp zone_domain (txt "AAAA")
      ∷ udp zone_domain (txt "NS")
      ∷ udp zone_domain (txt "SOA")
      ∷ record (udp zone_domain (txt "A")) { random_label = true }
      ∷ record (udp zone_domain (txt "AXFR")) {
        transport = txt "tcp";
        server_mode = txt "authoritative";
        edns = false;
      }
      ∷ []
    else if is_ns_host
    then udp fqdn (txt "A") ∷ udp fqdn (txt "AAAA") ∷ []
    else udp fqdn (txt "A") ∷ udp fqdn (txt "AAAA") ∷ udp fqdn (txt "CNAME") ∷ []

-- Random labels, zone transfers and queries over TCP are made for the apex of a zone only, and for
-- each apex; every host is asked for its A and AAAA records.
pub build_host_discovery_plan-apex :
    (fqdn notes zone : Text)
    → let plan = build_host_discovery_plan fqdn notes zone in
      let is_apex = normalize_fqdn fqdn == normalize_fqdn zone in
      (any (λ q. q.random_label) plan ≡ is_apex)
      × (any (λ q. q.record_type == txt "AXFR") plan ≡ is_apex)
      × (any (λ q. q.transport == txt "tcp") plan ≡ is_apex)
      × (any (λ q. q.record_type == txt "A") plan ≡ true)
      × (any (λ q. q.record_type == txt "AAAA") plan ≡ true)
unfolding build_host_discovery_plan text_beq
build_host_discovery_plan-apex fqdn notes zone = ground arith
