-- ===== src/ClientRateLimit/Rate.antt =====
-- `WaitIfNeeded` (limiter.go of clientratelimit) over sequences of calls.
use native.Mathlib.Nat
use stock_backend.Prelude.{
  ℕ, suc, ◌+◌, ◌*◌, ◌≤◌, ◌≡◌, Bool, List, [], ◌∷◌, arith, if◌then◌else◌, ◌⊎◌, inl, inr,
}
use stock_backend.ClientRateLimit.{
  RateLimiter, Call, reset_if_elapsed, wait, counted, wait_if_needed,
}

-- The clock does not run backwards, and a timer does not fire early.
pub record Timely (interval : ℕ) (rl : RateLimiter) (c : Call) : Type 0 where
  pub forward : rl.last_reset ≤ c.now
  pub awake : c.now ≤ c.woke
  pub slept : rl.last_reset + interval ≤ c.woke

-- A call that goes ahead is one more of the current interval, within the limit, or the first of one
-- that starts an interval later at least; a call that does not leaves no trace within the limit.
abbrev pub Granted : ℕ → ℕ → RateLimiter → Bool × RateLimiter → Type 0
Granted limit interval rl (ok, rl') =
    (rl'.count ≤ limit)
    × (((rl'.last_reset ≡ rl.last_reset) × (rl'.count ≡ rl.count + (if ok then 1 else 0)))
        ⊎ ((rl.last_reset + interval ≤ rl'.last_reset) × (rl'.count ≡ (if ok then 1 else 0))))

pub wait_if_needed-Granted :
    (limit interval : ℕ) (rl : RateLimiter) (c : Call)
    → 1 ≤ limit
    → rl.count ≤ limit
    → Timely interval rl c
    → Granted limit interval rl (wait_if_needed limit interval c rl)
unfolding wait_if_needed counted wait reset_if_elapsed
wait_if_needed-Granted limit interval rl c some_limit bound t =
    let a = t.forward in let b = t.awake in let d = t.slept in ground arith

-- A run of calls, and how many of them went ahead.
abbrev pub add_grant : ℕ → Bool × RateLimiter → RateLimiter × ℕ
add_grant granted (ok, rl) = (rl, granted + (if ok then 1 else 0))

unfoldable pub run : ℕ → ℕ → List Call → RateLimiter × ℕ → RateLimiter × ℕ
run limit interval [] s = s
run limit interval (c ∷ cs) (rl, granted) =
    run limit interval cs (add_grant granted (wait_if_needed limit interval c rl))

abbrev pub AllTimely : ℕ → ℕ → RateLimiter → List Call → Type 0
AllTimely limit interval rl [] = Unit
AllTimely limit interval rl (c ∷ cs) =
    Timely interval rl c × AllTimely limit interval (wait_if_needed limit interval c rl).1 cs

-- `opened` intervals lie behind, each with at most `limit` calls.
record Paced (limit interval start : ℕ) (rl : RateLimiter) (granted : ℕ) : Type 0 where
  pub opened : ℕ
  pub within : granted ≤ limit * opened + rl.count
  pub bound : rl.count ≤ limit
  pub spaced : start + opened * interval ≤ rl.last_reset

module _ (limit interval start : ℕ) (some_limit : 1 ≤ limit) where
  call-Paced :
      (rl : RateLimiter) (granted : ℕ) (s : Bool × RateLimiter)
      → Granted limit interval rl s
      → Paced limit interval start rl granted
      → Paced limit interval start s.1 (add_grant granted s).1
  call-Paced rl granted (ok, rl') (bound, inl (same, one)) p = record {
    opened = p.opened;
    within = omega (arith, p.within, one);
    bound = bound;
    spaced = omega (arith, p.spaced, same);
  }
  call-Paced rl granted (ok, rl') (bound, inr (later, first)) p = record {
    opened = suc p.opened;
    within = omega (arith, p.within, p.bound, first, Nat.mul-suc limit p.opened);
    bound = bound;
    spaced = omega (arith, p.spaced, later, Nat.suc-mul p.opened interval);
  }

  run-Paced :
      (cs : List Call) (rl : RateLimiter) (granted : ℕ)
      → AllTimely limit interval rl cs
      → Paced limit interval start rl granted
      → (let s = run limit interval cs (rl, granted) in Paced limit interval start s.0 s.1)
  unfolding run
  run-Paced [] rl granted t p = p
  run-Paced (c ∷ cs) rl granted t p =
      run-Paced cs (wait_if_needed limit interval c rl).1
        (add_grant granted (wait_if_needed limit interval c rl)).1 t.1
        (call-Paced rl granted (wait_if_needed limit interval c rl)
          (wait_if_needed-Granted limit interval rl c some_limit p.bound t.0) p)

  -- Calls from a new limiter with a limit of one at least, on a clock that does not run backwards and
  -- with timers that do not fire early: the calls that go ahead are at most `limit` for each interval
  -- begun, and the intervals that lie behind have passed in full.
  pub run-rate :
      (cs : List Call)
      → AllTimely limit interval (record { count = 0; last_reset = start }) cs
      → (let s = run limit interval cs (record { count = 0; last_reset = start }, 0) in
          (opened : ℕ) × (s.1 ≤ limit * suc opened) × (start + opened * interval ≤ s.0.last_reset))
  run-rate cs t =
      let p =
        run-Paced cs (record { count = 0; last_reset = start }) 0 t
          (record {
            opened = 0;
            within = omega arith;
            bound = omega arith;
            spaced = omega arith;
          }) in
      (p.opened, omega (arith, p.within, p.bound, Nat.mul-suc limit p.opened), p.spaced)
