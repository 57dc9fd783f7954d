-- ===== src/Store.antt =====
-- gateflow/store.py: API keys in the database and in Redis.
pub mod Keys
pub mod Routes
