-- ===== src/Prefetch.antt =====
-- Speculative prefetching (person3_system/prefetch): `Predictor` guesses the blocks of the next
-- layer, `Staging` is the first prefetcher with its LRU buffer, `Accounted` the second with its
-- accounts; proofs in `Lru`, `Accounts` and `Requests`.
pub mod Ordered
pub mod Predictor
pub mod Staging
pub mod Lru
pub mod Accounted
pub mod Accounts
pub mod Requests
