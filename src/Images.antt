-- ===== src/Images.antt =====
-- tools/helpers/images.py: the images' download, their replacement, and the root file system.
pub mod Update
pub mod Rootfs
pub mod Integrity
