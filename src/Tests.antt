-- ===== src/Tests.antt =====
-- Runs of the model at concrete inputs, and the properties at them.
mod Evidence
mod Engine
mod Scheduling
mod Protocol
mod Connector
mod Registration
mod Backend
mod Engines
mod Warehouse
