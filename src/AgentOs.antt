-- ===== src/AgentOs.antt =====
-- The Agent OS scripts: the route of a brief, its state, and the gates that close it.
mod Brief
mod Router
mod Routes
mod Uat
mod Closing
mod Responses
mod Closes
mod Yaml
mod Env
mod Runspec
mod Distinct
mod Tasks
mod RunspecTests
mod Tests
