-- ===== src/Api.antt =====
-- internal/api/api.go: the routes of the REST API, their guards and their handlers. Identifiers go by
-- number; a text that is no uuid counts as a number that no row has, since the statements that fail on
-- it get the same answers as those that find no row.
pub mod Responses
pub mod Accounts
pub mod Handlers
pub mod Routes
pub mod Frames
pub mod Access
pub mod Disclosure
pub mod Sessions
pub mod Logout
pub mod Streaming
