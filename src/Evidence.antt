-- ===== src/Evidence.antt =====
-- stream_evidence.py: passive observers of the JSON-RPC traffic of one logical stream. The framer
-- cuts each direction into lines, the correlator pairs requests with responses under an opaque
-- alias that both nodes derive alike.
pub mod Identity
pub mod Classify
pub mod Framer
pub mod Correlator
