-- ===== src/Scheduling.antt =====
-- internal/service/scheduling.go: which node runs a probe, which regions a task covers, and the
-- summary of an execution. `Nodes` and `Regions` choose, `Summary` counts; the modules below
-- them hold the proofs.
pub mod Types
pub mod Nodes
pub mod Regions
pub mod Summary
pub mod Tests
