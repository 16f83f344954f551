-- ===== src/Database.antt =====
-- internal/database: the tables of db/migrations and the transactions of the store on them.
pub mod Table
pub mod Tables
pub mod Transaction
pub mod Queries
pub mod Claim
pub mod Attempts
pub mod Linked
pub mod Invariant
pub mod Preservation
pub mod Claiming
pub mod History
pub mod Fencing
pub mod Terminal
pub mod Events
