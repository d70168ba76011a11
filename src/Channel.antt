-- ===== src/Channel.antt =====
-- The flash channel (person2_ssd/channels/channel.py): a bus that its dies share, and a queue.
-- `Defs` has the operations, `Serial` what is proved of the order of the transfers.
pub mod Defs
pub mod Serial
