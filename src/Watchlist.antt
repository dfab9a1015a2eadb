-- ===== src/Watchlist.antt =====
-- The watchlist: internal/feature/watchlist.
pub mod Store
pub mod Repository
pub mod Service
pub mod Order
pub mod Sorting
pub mod Rewriting
pub mod Invariant
pub mod Places
pub mod Reorder
pub mod Apart
pub mod Matching
pub mod Listing
pub mod Keys
pub mod Adding
pub mod Removing
pub mod Growth
pub mod Interleaving
pub mod History
pub mod Acceptance
pub mod RoundTrip
