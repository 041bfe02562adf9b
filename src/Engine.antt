-- ===== src/Engine.antt =====
-- connector_engine.py: the recovery policy of one persistent connector session. It classifies the
-- lines of both directions, caches the handshake, keeps the outstanding requests and words the
-- errors that the Bridge answers with.
pub mod Payload
pub mod Recovery
