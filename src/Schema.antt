-- ===== src/Schema.antt =====
-- The records that all parts share (common/schemas).
pub mod Block
