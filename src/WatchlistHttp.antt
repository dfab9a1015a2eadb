-- ===== src/WatchlistHttp.antt =====
-- internal/feature/watchlist/watchlisthttp: the handlers in front of the watchlist.
pub mod Handler
pub mod Reordering
