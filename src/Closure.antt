-- ===== src/Closure.antt =====
-- scripts/verify_closure.py: the closure of a repository.
mod Evidence
mod Repo
mod Triggers
mod Ledgers
mod Decisions
mod Run
mod Required
mod Obligations
mod Accepted
mod Verdict
mod Tests
