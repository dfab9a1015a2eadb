-- ===== src/RateLimit.antt =====
-- internal/transport/httpratelimit/limiter.go: the sliding-window limiter on a Redis sorted set.
-- Times are nanoseconds and one clock serves the API and Redis. Redis reads and keeps the times as
-- doubles: `double` takes a time to the value of the nearest double, a whole number. The random part
-- of a member is the argument `member`.
pub mod Window
pub mod History
pub mod Middleware
pub mod Addresses
use stock_backend.Prelude.{
  ℕ, suc, ◌+◌, ◌-◌, ◌*◌, ◌/◌, ◌^◌, Bool, true, false, not, ◌||◌, Option, none, some, List, [], ◌∷◌,
  max, ltb, leb, ◌==◌, if◌then◌else◌, length, keep, nat_eq,
}

pub record Entry : Type 0 where
  pub score : ℕ
  pub member : ℕ

-- The value of one key: the set, and when it expires.
pub record SortedSet : Type 0 where
  pub entries : List Entry
  pub expires_at : Option ℕ

pub data Policy : Type 0 where
  fail_closed fail_open : Policy

-- `retry_after` and `service_unavailable` tell a 429 from a 503.
pub record Decision : Type 0 where
  pub allowed : Bool
  pub retry_after : ℕ
  pub service_unavailable : Bool

-- What becomes of the round trip to Redis: it may fail before or after the script has run there.
pub data Trip : Type 0 where
  replied lost_request lost_reply : Trip

abbrev pub unexpired : ℕ → Option ℕ → List Entry → List Entry
unexpired now none es = es
unexpired now (some at) es = if leb at now then [] else es

-- What commands at `now` see of the key.
unfoldable pub visible : ℕ → SortedSet → List Entry
visible now z = unexpired now z.expires_at z.entries

-- ZREMRANGEBYSCORE from -inf up to and including now - window; a window that begins before 1970 has
-- every score.
abbrev pub in_window : (ℕ → ℕ) → ℕ → ℕ → Entry → Bool
in_window double now window e = ltb now window || ltb (double (now - window)) e.score

-- ZADD moves a member that is there already.
unfoldable pub zadd : Entry → List Entry → List Entry
zadd e es = e ∷ keep (λ x. not (Entry.member x == e.member)) es

-- int(window.Seconds()), at least 1, as EXPIRE takes it.
unfoldable pub ttl_seconds : ℕ → ℕ
ttl_seconds window = max (window / 10 ^ 9) 1

abbrev pub script_on : (ℕ → ℕ) → ℕ → ℕ → ℕ → ℕ → Option ℕ → List Entry → Bool × SortedSet
script_on double limit window now member expires_at es =
    if ltb (length es) limit
    then (
      true,
      record {
        entries = zadd (record { score = double now; member = member }) es;
        expires_at = some (now + ttl_seconds window * 10 ^ 9);
      },
    )
    else (false, record { entries = es; expires_at = expires_at })

-- A key that has expired, or that the script empties, has no expiry left.
abbrev pub expiry_left : List Entry → Option ℕ → Option ℕ
expiry_left [] at = none
expiry_left (e ∷ es) at = at

-- `rateLimitScript`.
unfoldable pub rate_limit_script : (ℕ → ℕ) → ℕ → ℕ → ℕ → ℕ → SortedSet → Bool × SortedSet
unfolding visible
rate_limit_script double limit window now member z =
    let es : List Entry = keep (in_window double now window) (visible now z) in
    script_on double limit window now member (expiry_left es z.expires_at) es

abbrev pub allow : Decision
allow = record { allowed = true; retry_after = 0; service_unavailable = false }

abbrev pub deny_unavailable : Decision
deny_unavailable = record { allowed = false; retry_after = 0; service_unavailable = true }

unfoldable pub unavailable : Policy → Decision
unavailable fail_closed = deny_unavailable
unavailable fail_open = allow

abbrev pub decide : ℕ → Bool → Decision
decide window true = allow
decide window false = record { allowed = false; retry_after = window; service_unavailable = false }

-- `Allow`; `none` is a limiter with no Redis client.
unfoldable pub allow_request :
    (ℕ → ℕ) → ℕ → ℕ → Policy → ℕ → ℕ → Trip → Option SortedSet → Decision × Option SortedSet
unfolding unavailable
allow_request double limit window policy now member trip none = (unavailable policy, none)
allow_request double limit window policy now member replied (some z) =
    let (ok, z') = rate_limit_script double limit window now member z in (decide window ok, some z')
allow_request double limit window policy now member lost_request (some z) =
    (unavailable policy, some z)
allow_request double limit window policy now member lost_reply (some z) =
    (unavailable policy, some (rate_limit_script double limit window now member z).1)
