-- ===== src/Operator.antt =====
-- The controls of an operator over a live run: what the evidence allows, and what an action does.
mod State
mod Authority
mod Control
mod Audit
mod Tests
