-- ===== src/RateLimit/Middleware.antt =====
-- internal/transport/httpratelimit/middleware.go: the limiter in front of a handler, by address or by
-- user, with `ClientIP` of internal/transport/httpx. net.SplitHostPort and the decimal form of an int64
-- are Go's and arguments.
use mathlib.Core.Option
use Prim.Native.String.{◌++◌}
use stock_backend.Prelude.{
  ℕ, ◌/◌, ◌^◌, Bool, Option, none, some, String, ◌==◌, if◌then◌else◌, string_eq,
}
use stock_backend.RateLimit.{SortedSet, Policy, Trip, Decision, allow_request}

-- A response has a status, perhaps a Retry-After header, and a message unless the route wrote its own.
pub data Answer : Type 0 where
  handed_on : Answer
  answered : ℕ → Option ℕ → Option String → Answer

pub record Config : Type 0 where
  pub prefix : String
  pub limit : ℕ
  pub window : ℕ
  pub policy : Policy
  pub has_on_rejected : Bool

-- The address that `RealIP` put into the context, and that of the connection.
pub record Origin : Type 0 where
  pub resolved : Option String
  pub remote_addr : String

-- The sorted sets of Redis by their keys; a key that is not there has the empty set.
abbrev pub Keys : Type 0
Keys = String → SortedSet

abbrev pub store : String → SortedSet → Keys → Keys
store key z ks = λ k. if k == key then z else ks k

abbrev pub unless_own : Config → String → Option String
unless_own cfg message = if cfg.has_on_rejected then none else some message

unfoldable pub write_rate_limit_result : Config → Decision → Answer
write_rate_limit_result cfg d =
    if d.service_unavailable
    then answered 503 none (unless_own cfg "service temporarily unavailable")
    else answered 429 (some (d.retry_after / 10 ^ 9)) (unless_own cfg "too many requests")

abbrev pub answer_of : Config → Decision → Answer
answer_of cfg d = if d.allowed then handed_on else write_rate_limit_result cfg d

abbrev pub host_or : String → Option String → String
host_or remote_addr none = remote_addr
host_or remote_addr (some host) = host

abbrev pub resolved_or : String → Option String → String
resolved_or host none = host
resolved_or host (some ip) = if ip == "" then host else ip

-- `ClientIP`
unfoldable pub client_ip : (String → Option String) → Origin → String
client_ip split_host_port o =
    resolved_or (host_or o.remote_addr (split_host_port o.remote_addr)) o.resolved

module _ (double : ℕ → ℕ) (cfg : Config) (now member : ℕ) (trip : Trip) where
  -- `Allow` for a key, and the answer that follows from it.
  unfoldable pub limited : String → Option Keys → Answer × Option Keys
  limited key none = (
    answer_of cfg (allow_request double cfg.limit cfg.window cfg.policy now member trip none).0,
    none,
  )
  limited key (some ks) =
      let (d, z) =
        allow_request double cfg.limit cfg.window cfg.policy now member trip (some (ks key)) in
      (answer_of cfg d, some (store key (Option.get_or z (ks key)) ks))

  unfoldable pub by_ip : (String → Option String) → Origin → Option Keys → Answer × Option Keys
  by_ip split_host_port origin ks =
      limited (cfg.prefix ++ (":" ++ client_ip split_host_port origin)) ks

  -- Without a user in the context the chain is put together wrongly.
  unfoldable pub by_user_id : (ℕ → String) → Option ℕ → Option Keys → Answer × Option Keys
  by_user_id decimal none ks = (answered 500 none (some "internal server error"), ks)
  by_user_id decimal (some user_id) ks = limited (cfg.prefix ++ (":" ++ decimal user_id)) ks
