-- ===== src/Bridge.antt =====
-- The soft-bridge driver, shim_bridge/gf_bridge.c.
pub mod File
pub mod Read
pub mod Write
pub mod Module
pub mod Sysfs
