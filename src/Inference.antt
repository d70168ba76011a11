-- ===== src/Inference.antt =====
-- The storage backend of live inference (person2_ssd/inference_backend.py): `Device` is the
-- backing file, `State` and `Store` the state and the write, `Reads` the single reads, `Batches` the batched
-- ones, `TopK` the filter inside the storage; the rest are proofs.
pub mod Device
pub mod State
pub mod Store
pub mod Reads
pub mod Batches
pub mod TopK
pub mod Refines
pub mod Ready
pub mod Total
pub mod Loops
pub mod Fitting
pub mod Agree
