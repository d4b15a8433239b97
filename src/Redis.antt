-- ===== src/Redis.antt =====
-- internal/infrastructure/redis: the keys, the two Lua scripts and the limiter that runs them.
pub mod Store
pub mod Keys
pub mod TokenBucket
pub mod SlidingWindow
pub mod Limiter
