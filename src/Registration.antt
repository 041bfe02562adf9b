-- ===== src/Registration.antt =====
-- bridge_runtime.py: what a registration and an initialize request are checked for.
pub mod Concurrency
pub mod Rules
pub mod Negotiation
pub mod Artifacts
