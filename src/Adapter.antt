-- ===== src/Adapter.antt =====
-- The prefetch adapter of live inference (person3_system/prefetch/inference_adapter.py): `Interface`
-- is the storage behind it, `State` the staging buffer, `Staging` the prefetch and its worker,
-- `Reads` and `Writes` the rest. The other modules prove.
pub mod Interface
pub mod State
pub mod Staging
pub mod Reads
pub mod Writes
pub mod Coherent
pub mod Workers
pub mod Hits
pub mod Filling
pub mod Dispatch
pub mod Demands
pub mod Batched
pub mod Transparent
