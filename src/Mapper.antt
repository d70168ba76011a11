-- ===== src/Mapper.antt =====
-- The canonical mapping from tensor coordinates to addresses
-- (person2_ssd/kv_allocator/tensor_mapping.py): `Coordinates` are its values, `Addressing` the
-- mapper; proofs in `Distinct` (logical addresses) and `Agreement` (with the translation layer).
pub mod Coordinates
pub mod Addressing
pub mod Distinct
pub mod Agreement
