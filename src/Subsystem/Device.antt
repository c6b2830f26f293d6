-- ===== src/Subsystem/Device.antt =====
-- genz_device.c: core structures and character devices.
pub mod Core
pub mod Chrdev
pub mod Register
pub mod Sysfs
