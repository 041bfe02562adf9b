-- ===== src/Protocol.antt =====
-- bridge_protocol.py: the projection of results onto the frozen legacy revisions, and the modern era.
pub mod Revisions
pub mod Tools
pub mod Content
pub mod Modern
