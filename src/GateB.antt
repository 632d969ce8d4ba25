-- ===== src/GateB.antt =====
-- scripts/gate_b.py: the contract of a run, checked before a role is dispatched.
mod Paths
pub mod Slices
mod Owners
mod Contracts
mod Fanout
pub mod Spec
mod Profile
pub mod Passes
mod Profiled
mod Tests
