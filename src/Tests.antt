-- ===== src/Tests.antt =====
-- The theorems at concrete inputs.
mod Sessions
mod Operations
mod Paths
mod Imports
mod Diffs
mod Passwords
mod Statements
mod Rows
mod Stored
mod Tables
mod Urls
mod Scripts
mod Pending
mod Json
mod Guards
