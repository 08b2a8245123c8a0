-- ===== src/Witnesses.antt =====
-- The theorems at concrete inputs, on the databases of the scenarios.
mod Holds
mod Offers
mod Waitlist
mod Seatmap
mod Jobs
mod Cancellation
mod Bookings
mod Accounts
mod Shows
mod Catalog
mod Http
mod Lifecycle
mod Requests
mod System
mod Mail
