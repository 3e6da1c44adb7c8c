-- ===== src/Tests.antt =====
-- Runs at concrete inputs, and each theorem of the development at an input that meets its
-- hypotheses.
mod Applications
mod Communications
mod Opportunities
mod Identities
mod Uploads
mod Schemas
