-- ===== src/Cache.antt =====
-- The paged KV cache (person1_kv_engine/cache_manager and mock_ssd.py): `Blocks` allocates,
-- `Hotness` classifies, `MockSsd` is the in-memory SSD, `Paged` ties them together; proofs in
-- `Offload`.
pub mod Blocks
pub mod Hotness
pub mod MockSsd
pub mod Paged
pub mod Numbered
pub mod Offload
