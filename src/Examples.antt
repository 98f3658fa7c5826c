-- ===== src/Examples.antt =====
-- The theorems applied to a small queue on the reference server.
mod Fixture
mod Queue
mod Leases
mod Workers
mod Reports
mod Replies
mod Pushes
mod Vacuums
mod Wakeups
mod Waits
mod Holders
mod Journeys
mod Listings
