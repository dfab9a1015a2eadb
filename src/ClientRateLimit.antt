-- ===== src/ClientRateLimit.antt =====
-- internal/shared/clientratelimit/limiter.go: at most `limit` calls in an interval, the next one waits.
-- Times are nanoseconds; a call brings the readings of the clock and whether its context ends the wait.
pub mod Rate
use stock_backend.Prelude.{ℕ, ◌+◌, ◌-◌, Bool, true, false, List, [], ◌∷◌, ltb, leb, if◌then◌else◌}

pub record RateLimiter : Type 0 where
  pub count : ℕ
  pub last_reset : ℕ

-- `woke` is the clock after the wait.
pub record Call : Type 0 where
  pub now : ℕ
  pub woke : ℕ
  pub cancelled : Bool

module _ (limit interval : ℕ) where
  unfoldable pub reset_if_elapsed : ℕ → RateLimiter → RateLimiter
  reset_if_elapsed now rl =
      if leb interval (now - rl.last_reset) then record { count = 0; last_reset = now } else rl

  -- The counter is beyond the limit: wait for the rest of the interval, if there is one.
  unfoldable pub wait : Call → RateLimiter → Bool × RateLimiter
  wait c rl =
      if ltb 0 (interval - (c.now - rl.last_reset))
      then (if c.cancelled
          then (false, record rl { count = rl.count - 1 })
          else (true, record { count = 1; last_reset = c.woke }))
      else (true, record { count = 1; last_reset = c.woke })

  unfoldable pub counted : Call → RateLimiter → Bool × RateLimiter
  unfolding wait
  counted c rl = if ltb limit rl.count then wait c rl else (true, rl)

  -- `WaitIfNeeded`: whether the call may go ahead.
  unfoldable pub wait_if_needed : Call → RateLimiter → Bool × RateLimiter
  unfolding counted reset_if_elapsed
  wait_if_needed c rl =
      let fresh : RateLimiter = reset_if_elapsed c.now rl in
      counted c (record fresh { count = fresh.count + 1 })
