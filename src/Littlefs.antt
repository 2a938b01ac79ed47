-- ===== src/Littlefs.antt =====
-- src/littlefs/: the walks over directories.
pub mod Walk
pub mod Flat
pub mod Subdir
