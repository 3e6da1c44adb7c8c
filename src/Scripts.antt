-- ===== src/Scripts.antt =====
-- scripts: the sample users that are put into auth_db, by a statement of its own and by the route
-- that registers.
pub mod Seeds
pub mod Seeding
