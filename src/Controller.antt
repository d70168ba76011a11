-- ===== src/Controller.antt =====
-- The simulated SSD controller of the KV engine (person1_kv_engine/storage_backend):
-- `FlashModel` computes times, `MockSsdController` stores; proofs in `DramBudget`.
pub mod FlashModel
pub mod MockSsdController
pub mod DramBudget
