-- ===== src/Judge.antt =====
-- internal/judge: comparing output, the shared output budget, the launch marker, and the
-- evaluation of a submission.
pub mod Types
pub mod Compare
pub mod Output
pub mod Launch
pub mod Engine
pub mod Retry
pub mod Worker
pub mod Pool
pub mod Docker
