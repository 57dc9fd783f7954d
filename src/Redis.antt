-- ===== src/Redis.antt =====
-- gateflow/redis_client.py: the Lua scripts, each an atomic step on one key of the Redis server,
-- and the Python functions that call them.
mod Tests
pub mod Key
pub mod Tostring
pub mod TokenBucket
pub mod CircuitBreaker
pub mod Quota
