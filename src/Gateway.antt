-- ===== src/Gateway.antt =====
-- crates/pos-gateway: the endpoints, the policies and the gate in front of every dispatch.
pub mod Policy
