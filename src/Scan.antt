-- ===== src/Scan.antt =====
-- internal/service/scanner.go: the scan of trusted hosts. `Lines` reads the lines of a DNS answer, `Host`
-- scans one host, `Run` is the run of a scan and its stop, `Jobs` creates scans and repeats them
-- by profiles.
pub mod Lines
pub mod Watch
pub mod Host
pub mod Counts
pub mod Network
pub mod Tally
pub mod Run
pub mod Jobs
pub mod Tests
