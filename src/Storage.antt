-- ===== src/Storage.antt =====
-- The end-to-end SSD model (person2_ssd/storage_model): `Latency` is the analytical model,
-- `Contention` what is proved of it, `Simulator` the flash hierarchy behind the allocator.
pub mod Latency
pub mod Contention
pub mod Simulator
pub mod Pages
pub mod Placing
pub mod Integrity
pub mod Fresh
