-- ===== src/Pool.antt =====
-- scripts/worker_pool.py: workers that claim tasks from the queue, run them, and finish them.
mod Tests
mod Limits
mod Signal
mod Options
mod Worker
mod Leaves
mod Drain
mod Outcome
mod Report
mod Advice
