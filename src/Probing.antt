-- ===== src/Probing.antt =====
-- internal/engine/prober/dns.go: the options of a DNS probe.
pub mod Options
