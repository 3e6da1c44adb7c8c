-- ===== src/Storage.antt =====
-- shared/campushire-storage: where uploaded files go, and which are taken.
pub mod FilePath
pub mod Backends
pub mod Suffix
pub mod Saving
pub mod Slashes
pub mod Names
