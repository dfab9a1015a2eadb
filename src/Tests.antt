-- ===== src/Tests.antt =====
-- Runs of the models on concrete data, and the theorems at concrete inputs.
mod Sessions
mod Transport
mod RateLimit
mod Candles
mod Credentials
mod Watchlist
mod Oauth
mod AuthHttp
mod CandlesHttp
