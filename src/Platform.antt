-- ===== src/Platform.antt =====
-- internal/database/store.go: accounts, authored problems and submissions as their owners see them.
pub mod Tables
pub mod Authoring
pub mod Submitting
pub mod Stored
pub mod RoundTrip
pub mod Accepting
pub mod Ownership
pub mod Listing
pub mod Lifetime
