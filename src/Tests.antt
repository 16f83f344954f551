-- ===== src/Tests.antt =====
-- The theorems at concrete inputs: small tables, jobs, streams and problems.
pub mod Data
mod Store
mod Judging
mod Streams
mod Rules
mod Outboxes
mod Docker
pub mod Platforms
mod Requests
