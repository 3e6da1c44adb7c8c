-- ===== src/Communications.antt =====
-- services/communications-service: queries of students, notifications, and the events that make
-- them.
pub mod Model
pub mod Service
pub mod Responses
pub mod Api
pub mod Consumer
pub mod Cases
pub mod Delivery
pub mod Invariant
pub mod Requests
pub mod Desk
pub mod Inbox
pub mod Queue
