-- ===== src/Nand.antt =====
-- NAND flash (person2_ssd/nand): pages, erase blocks, planes and dies. `Page`, `Block` and `Die`
-- hold the definitions, `Counts` and `Writing` what is proved of erase blocks.
pub mod Page
pub mod Block
pub mod Die
pub mod Counts
pub mod Writing
