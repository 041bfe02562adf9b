-- ===== src/Backend.antt =====
-- bridge_runtime.py: `SharedBackend`, one JSON-RPC backend that several clients share, as far as it routes
-- messages.
pub mod State
pub mod Task
pub mod Rules
pub mod Requests
pub mod Session
pub mod Responses
pub mod Serving
pub mod Policy
pub mod Departure
pub mod Eras
pub mod Clients
pub mod Lifecycle
pub mod Exit
pub mod Moves
pub mod Delivery
pub mod Gates
pub mod Lost
pub mod Recovery
pub mod Tables
pub mod Untouched
pub mod Routed
