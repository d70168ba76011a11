-- ===== src/Backend.antt =====
-- The storage backends (person3_system/storage): `Interface` is the abstract class with its batch
-- loop, `Mock` the in-memory backend; proofs in `ReadBack`.
pub mod Interface
pub mod Mock
pub mod ReadBack
