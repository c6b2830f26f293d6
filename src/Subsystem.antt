-- ===== src/Subsystem.antt =====
-- subsystem/: the Gen-Z bus, its classes, and the devices on it.
pub mod Class
pub mod Bus
pub mod Init
pub mod Device
