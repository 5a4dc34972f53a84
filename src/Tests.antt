-- ===== src/Tests.antt =====
-- Runs of the modelled code, and each property at an input.
mod Locks
mod Paths
mod Headers
mod Conditions
mod Transfers
mod Files
mod Nodes
mod Cards
mod Visibility
mod Collections
mod Calendars
mod Copies
mod Deletions
mod Fakes
