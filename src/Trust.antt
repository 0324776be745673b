-- ===== src/Trust.antt =====
-- internal/service/trust.go: the library of trusted domains. `Manifest` reads and normalises the
-- list that is imported, `Upgrade` merges it with the rows that are stored,
-- `Discovery` chooses the format of a manifest and plans the queries of a host,
-- `Review` approves or rejects candidates, `Build` runs the jobs that import a file of domains chunk by chunk.
pub mod Manifest
pub mod Upgrade
pub mod Review
pub mod Build
pub mod Discovery
pub mod Tests
