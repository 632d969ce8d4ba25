-- ===== src/GateR.antt =====
-- scripts/gate_r.py: the artifacts of the roles, checked against the contract of Gate B.
mod Status
mod Defs
mod Complete
mod Laws
mod Honours
mod Tests
unfoldable pub use Defs.*
