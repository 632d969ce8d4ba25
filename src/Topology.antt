-- ===== src/Topology.antt =====
-- scripts/factory_run.py: the tasks of a run, expanded into slices and split into two chains.
mod Defs
mod Split
mod Expand
mod Tests
mod Ordering
mod Order
