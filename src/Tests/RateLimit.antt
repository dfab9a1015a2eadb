-- ===== src/Tests/RateLimit.antt =====
-- Three requests under a limit of two in a window of a second; the reply to the second is lost.
use stock_backend.Prelude.{
  ℕ, ◌+◌, ◌*◌, ◌/◌, ◌^◌, ◌≤◌, ◌<◌, ◌≡◌, refl, List, [], ◌∷◌, String, Option, none, suc, false,
  arith,
}
use stock_backend.RateLimit.Middleware.{Config, by_ip, limited, client_ip, write_rate_limit_result}
use stock_backend.ClientRateLimit
use stock_backend.ClientRateLimit.{RateLimiter, wait_if_needed, counted, wait, reset_if_elapsed}
use stock_backend.ClientRateLimit.Rate.{AllTimely, run, run-rate}
use stock_backend.RateLimit.{
  fail_closed, replied, lost_reply, ttl_seconds, visible, rate_limit_script, allow_request, zadd,
}
use stock_backend.RateLimit.Window.{WithinLimit}
use stock_backend.RateLimit.History.{Call, Orderly, empty_set, serve, call, serve-WithinLimit}
use stock_backend.RateLimit.Addresses.{
  Arrival, arrivals, calls_of, times_of, no_keys, by_ip-WithinLimit,
}

-- To the nearest multiple of 256.
abbrev nearest : ℕ → ℕ
nearest n = (n + 128) / 256 * 256

nearest-monotone : (m n : ℕ) → m ≤ n → nearest m ≤ nearest n
nearest-monotone m n h = omega arith

nearest-apart : (m n : ℕ) → m + 256 < n → n < 2 ^ 61 → nearest m < nearest n
nearest-apart m n h k = omega arith

abbrev second : ℕ
second = 1000000000

abbrev shorter : ℕ
shorter = 999999744

abbrev call_at : ℕ → ℕ → Call
call_at at member = record { at = at; member = member; trip = replied }

abbrev calls : List Call
calls =
    call_at 5000000000 1
    ∷ record { at = 5000000300; member = 2; trip = lost_reply }
    ∷ call_at 5000000600 3
    ∷ call_at 6000000700 4
    ∷ []

calls-fits : second ≤ ttl_seconds second * 10 ^ 9
unfolding ttl_seconds
calls-fits = omega arith

calls-Orderly : Orderly nearest 2 second 0 (empty_set, []) calls
unfolding call allow_request rate_limit_script visible zadd ttl_seconds
calls-Orderly = (
  omega arith,
  omega arith,
  refl,
  (
    omega arith,
    omega arith,
    refl,
    (omega arith, omega arith, refl, (omega arith, omega arith, refl, tt)),
  ),
)

serves_two : (serve nearest 2 second calls (empty_set, [])).1 ≡ 6000000700 ∷ 5000000000 ∷ []
unfolding serve call allow_request rate_limit_script visible zadd ttl_seconds
serves_two = refl

serve-WithinLimit_example : WithinLimit 2 shorter (serve nearest 2 second calls (empty_set, [])).1
serve-WithinLimit_example =
    serve-WithinLimit nearest nearest-monotone nearest-apart 2 second shorter calls (omega arith)
      calls-fits calls-Orderly

abbrev config : Config
config = record {
  prefix = "rl:login:ip";
  limit = 1;
  window = second;
  policy = fail_closed;
  has_on_rejected = false;
}

-- `net.SplitHostPort` of two connections.
abbrev split_host_port : String → Option String
split_host_port remote_addr = none

abbrev from_address : String → ℕ → ℕ → Arrival
from_address ip at member = record {
  origin = record { resolved = none; remote_addr = ip };
  call = call_at at member;
}

abbrev visitors : List Arrival
visitors =
    from_address "10.0.0.1" 5000000000 1
    ∷ from_address "10.0.0.2" 5000000300 2
    ∷ from_address "10.0.0.1" 5000000600 3
    ∷ []

visitors-Orderly :
    Orderly nearest 1 second 0
      (empty_set, [])
      (calls_of nearest config split_host_port "10.0.0.1" visitors)
unfolding call allow_request rate_limit_script visible zadd ttl_seconds client_ip
visitors-Orderly = (omega arith, omega arith, refl, (omega arith, omega arith, refl, tt))

-- Each of the two has one request handed on.
hands_on_two :
    (arrivals nearest config split_host_port visitors (no_keys, [])).1
    ≡ ("10.0.0.2", 5000000300) ∷ ("10.0.0.1", 5000000000) ∷ []
unfolding by_ip limited allow_request rate_limit_script visible zadd ttl_seconds client_ip
    write_rate_limit_result
hands_on_two = refl

by_ip-WithinLimit_example :
    WithinLimit 1 shorter
      (times_of "10.0.0.1" (arrivals nearest config split_host_port visitors (no_keys, [])).1)
by_ip-WithinLimit_example =
    by_ip-WithinLimit nearest config split_host_port nearest-monotone nearest-apart shorter
      (omega arith) calls-fits refl visitors "10.0.0.1" visitors-Orderly

-- Three calls under a limit of two in an interval of ten: the third waits.
abbrev waits : List ClientRateLimit.Call
waits =
    record { now = 101; woke = 110; cancelled = false }
    ∷ record { now = 102; woke = 110; cancelled = false }
    ∷ record { now = 103; woke = 110; cancelled = false }
    ∷ []

waits-AllTimely : AllTimely 2 10 (record { count = 0; last_reset = 100 }) waits
unfolding wait_if_needed counted wait reset_if_elapsed
waits-AllTimely = (
  record { forward = omega arith; awake = omega arith; slept = omega arith },
  (
    record { forward = omega arith; awake = omega arith; slept = omega arith },
    (record { forward = omega arith; awake = omega arith; slept = omega arith }, tt),
  ),
)

run-rate_example :
    (let s = run 2 10 waits (record { count = 0; last_reset = 100 }, 0) in
      (opened : ℕ) × (s.1 ≤ 2 * suc opened) × (100 + opened * 10 ≤ s.0.last_reset))
run-rate_example = run-rate 2 10 100 (omega arith) waits waits-AllTimely
