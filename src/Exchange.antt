-- ===== src/Exchange.antt =====
-- A message on its whole way: `gf_bridge_write` of the sender, the interrupt and `gf_bridge_read` of
-- the receiver.
pub mod Send
pub mod Write
pub mod Ordinary
pub mod Receive
pub mod Path
pub mod Amid
