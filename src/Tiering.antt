-- ===== src/Tiering.antt =====
-- The tiers of the KV engine (person1_kv_engine/tiering): `Pool` holds the blocks, `Policy` says
-- which are hot, `Manager` moves them between RAM and the SSD; proofs in `Windows`.
pub mod Pool
pub mod Policy
pub mod Manager
pub mod Windows
