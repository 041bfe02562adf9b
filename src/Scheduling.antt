-- ===== src/Scheduling.antt =====
-- bridge_runtime.py: how a shared backend's requests are queued and dispatched.
pub mod Owners
pub mod Queue
