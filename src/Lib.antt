-- ===== src/Lib.antt =====
-- The core logic of the stock backend: the sessions of its users, the checks that every request
-- passes, and the candles that it serves.
--
-- Parts, and how they interact. The router (internal/app/router) puts the limiter of
-- internal/transport/httpratelimit, the authentication of internal/transport/jwt and the CSRF check of
-- internal/transport/csrf in front of the handlers. A browser has a short access token and a refresh
-- token; internal/feature/auth exchanges the refresh token once, in a transaction on PostgreSQL, and
-- revokes the family of a token that is presented again too late. internal/feature/candles collects
-- daily candles, aggregates them into weeks and months, and serves them through a cache in Redis.
-- internal/feature/watchlist keeps each user's list of symbols in the order of a sort key.
--
-- Files. Each file opens with the code that it is about.
--   Prelude: lists, options and Boolean tests over the native numbers.
--   Database: database/sql as the repositories use it, transactions with a deferred rollback, and calls
--     that fail. Agrees compares a run on a connection with a function on the tables.
--   Session/Store: the tables and the statements of internal/feature/auth/sqlc/queries.sql.go.
--   Session/Repository: internal/feature/auth/session_repository.go; `rotate` is Rotate, in the pieces
--     `rotate_locked`, `rotate_row`, `rotate_consumed`, `rotate_unconsumed`, `replayed`, `replace`.
--   Session/Service: internal/feature/auth/session.go and session_cleanup.go.
--   Session/Rotation: the specification of Rotate and Revoke, their refinement, and what an exchange says.
--   Session/Rows, Session/Invariant: the invariant of the session table.
--   Session/History: sequences of requests to the service, in the order of their commits.
--   RateLimit: internal/transport/httpratelimit/limiter.go, the script that Redis runs included;
--     RateLimit/Middleware: middleware.go beside it, and ClientIP of internal/transport/httpx;
--     RateLimit/Window, History and Addresses: the requests let through, for one key and for all.
--   ClientRateLimit: internal/shared/clientratelimit/limiter.go, which paces the calls of a service.
--   Transport/Request, Transport/Jwt, Transport/Csrf: internal/transport/jwt and internal/transport/csrf;
--     Transport/Jwt/Logout: a revoked token; Transport/Jwt/Chain: the order of the two.
--   Credentials/Users, Credentials/Login: user_repository.go and credentials.go of internal/feature/auth.
--   Oauth/Store, Oauth/States, Oauth/Flow: oauth.go of internal/feature/auth with its account repository
--     and its state store. Oauth/Creation, Registration and Linking: which user an account stands for;
--     Oauth/Begin and Oauth/Replay: the states.
--   Watchlist/Store, Watchlist/Repository, Watchlist/Service: internal/feature/watchlist, with its
--     statements and indexes; `meanwhile` is what other transactions commit between the reading and the
--     transaction of ReorderSymbols. Watchlist/Order, Sorting, Rewriting, Places, Reorder, Apart and
--     Listing: the two loops over the sort keys; Watchlist/Interleaving and Acceptance: the request;
--     Watchlist/Keys, Adding, Growth, Removing and RoundTrip: rows that come and go;
--     Watchlist/Invariant and History: the table after any requests.
--   AuthHttp/Cookies, AuthHttp/Handler, AuthHttp/OauthHandler: internal/feature/auth/authhttp;
--     AuthHttp/Refresh and AuthHttp/Callback: what their answers set.
--   WatchlistHttp/Handler: internal/feature/watchlist/watchlisthttp; WatchlistHttp/Reordering: its statuses.
--   CandlesHttp/Handler: internal/feature/candles/candleshttp; CandlesHttp/Asked and
--     CandlesHttp/Checks: what it hands on.
--   Candles/Aggregation, Candles/Dedup, Candles/Ingest, Candles/Quotes, Candles/Caching: aggregation.go,
--     ingest.go, quotes.go and caching_repository.go of internal/feature/candles.
--   Tests: runs on concrete data.
--
-- What is a parameter. The driver and the server: which of its calls fail is the field `fault` of a
-- connection, and a call that fails is taken to have changed no row. Redis: which round trips fail, to
-- which double it rounds a time, and for how long it keeps a key. The JWT library, SHA-256, bcrypt and
-- the source of random tokens. The OAuth2 providers. Go's text functions, calendar, time zones, JSON
-- decoder, and its conversion of an expiry to the time that is left.
-- float64 is a type with the operations that the code uses. Times are nanoseconds since 1970 as natural
-- numbers, so times before 1970 are left out; int64 volumes are bit patterns that wrap around.
-- Transactions on one family run one after the other, as the advisory lock of the family has it. Every
-- function here ends by structural recursion; nothing runs on fuel.
--
-- Not modelled: the HTTP handlers of other features, the configuration, the dependency injection and the batch commands;
-- the clients of external services; the advisory lock's waiting, and log lines.
mod Prelude
pub mod Database
pub mod Session
pub mod Candles
pub mod Transport
pub mod RateLimit
pub mod Watchlist
pub mod Oauth
pub mod AuthHttp
pub mod WatchlistHttp
pub mod CandlesHttp
pub mod ClientRateLimit
pub mod Credentials
mod Tests
