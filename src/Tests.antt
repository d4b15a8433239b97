-- ===== src/Tests.antt =====
-- Runs of the code on small inputs.
mod Data
mod Rules
mod Buckets
mod Windows
mod Checks
mod Projects
mod Requests
mod Handlers
mod Service
mod Clients
mod Settings
mod Dashboard
mod Server
