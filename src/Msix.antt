-- ===== src/Msix.antt =====
-- The MSI-X interrupts of shim_bridge/fee_MSI-X.c: the handler, and its setup and teardown.
pub mod Handler
pub mod Setup
pub mod Deliver
