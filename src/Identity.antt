-- ===== src/Identity.antt =====
-- services/identity-service: users, their profiles and refresh tokens, and the access tokens that
-- the other services rely on.
pub mod Model
pub mod Service
pub mod Api
pub mod Sessions
pub mod Responses
pub mod Joining
pub mod Refreshing
pub mod Rotation
pub mod Signout
pub mod Gateway
pub mod Requests
pub mod Lasting
pub mod Invariant
pub mod Revoking
pub mod Profiles
pub mod Schema
pub mod Migration
pub mod Metadata
pub mod Migrating
pub mod Labels
