-- ===== src/Common.antt =====
-- shared/campushire-common: the enumerations, and what the services share.
pub mod Enums
pub mod Uuid
pub mod Bearer
pub mod AuthDeps
