-- ===== src/Examples.antt =====
-- The programs of examples, which call the service over HTTP.
pub mod Client
pub mod Gateway
pub mod Services
