-- ===== src/Application.antt =====
-- services/application-service: applications, the stages of their workflow and their audit log.
pub mod Model
pub mod Service
pub mod Api
pub mod Audit
pub mod Invariant
pub mod Effects
pub mod Arrival
pub mod Withdraw
pub mod Apply
pub mod Status
pub mod Requests
pub mod Lasting
pub mod Listing
pub mod Submission
pub mod Progress
pub mod Files
pub mod Uploads
