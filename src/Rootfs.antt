-- ===== src/Rootfs.antt =====
-- rootfs/: the container's file system.
pub mod Overlay
pub mod Mounts
pub mod Harden
pub mod Devices
pub mod Sysctl
