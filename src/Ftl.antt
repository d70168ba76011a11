-- ===== src/Ftl.antt =====
-- The flash translation layers (person2_ssd/ftl) and the allocator over them
-- (person2_ssd/kv_allocator/allocator.py). `Base`, `Conventional`, `TensorAware` and `Allocator`
-- hold the definitions, the other modules the proofs.
pub mod Base
pub mod Conventional
pub mod TensorAware
pub mod Allocator
pub mod Consistency
pub mod Linear
pub mod Striping
pub mod Striped
pub mod Batch
