-- ===== src/Risk.antt =====
-- internal/risk: the catalogue of DNS risks (catalog.go) and the engine that judges one host
-- (engine.go). `Detect` holds the tests of the engine, `Engine` puts the verdicts together, and
-- the modules below these hold the proofs.
pub mod Catalog
pub mod Types
pub mod Detect
pub mod Engine
pub mod Tests
