-- ===== src/Client.antt =====
-- internal/engine/dnsclient/client.go: the DNS client. `Server` splits addresses and classifies errors,
-- `Query` makes one query, `Trace` follows the resolution of a name.
pub mod Server
pub mod Query
pub mod Trace
pub mod Tests
