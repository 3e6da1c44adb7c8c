-- ===== src/Opportunity.antt =====
-- services/opportunity-service: opportunities, their form fields and eligibility rules, and the
-- registrations of students.
pub mod Model
pub mod Eligibility
pub mod Service
pub mod Api
pub mod Rules
pub mod Deadlines
pub mod Scheduler
pub mod Closing
pub mod Responses
pub mod Publishing
pub mod Creating
pub mod Registering
pub mod Admission
pub mod Ownership
pub mod Requests
pub mod Lasting
pub mod Readers
pub mod Files
