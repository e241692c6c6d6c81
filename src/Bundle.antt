-- ===== src/Bundle.antt =====
-- bundle/: config.json, its validation, its accessors, and the lookup of the program to run.
pub mod Validate
pub mod Load
pub mod Lookup
