-- ===== src/RateLimit/Addresses.antt =====
-- Requests from any addresses through `ByIP` of middleware.go: each address has a limit of its own.
use mathlib.Core.Option
use Prim.Native.String.{◌++◌}
use text.Mathlib.TextLemmas.{append_cancel_left}
use stock_backend.Prelude.{
  ℕ, ◌+◌, ◌*◌, ◌^◌, ◌≤◌, ◌<◌, ◌≡◌, refl, sym, subst, ◌∙◌, ap, inl, inr, Bool, true, false, Option,
  some, List, [], ◌∷◌, String, ◌==◌, if◌then◌else◌, string_eq, Bool-cases, arith, beq_refl,
}
use stock_backend.RateLimit.{SortedSet, fail_closed, ttl_seconds, Decision, allow_request}
use stock_backend.RateLimit.Window.{WithinLimit, note}
use stock_backend.RateLimit.History.{Call, Orderly, empty_set, call, serve, serve-WithinLimit}
use stock_backend.RateLimit.Middleware.{
  Answer, handed_on, answered, Config, Origin, Keys, store, answer_of, client_ip, limited, by_ip,
  write_rate_limit_result,
}

-- A request: its address, its time, the random part of its member, and what becomes of the round trip.
pub record Arrival : Type 0 where
  pub origin : Origin
  pub call : Call

abbrev pub is_handed_on : Answer → Bool
is_handed_on handed_on = true
is_handed_on (answered status retry_after message) = false

abbrev pub noted : Answer → String → ℕ → List (String × ℕ) → List (String × ℕ)
noted handed_on ip now log = (ip, now) ∷ log
noted (answered status retry_after message) ip now log = log

-- The times of the requests of an address that were handed on, the latest first.
abbrev pub times_of : String → List (String × ℕ) → List ℕ
times_of ip [] = []
times_of ip ((j, now) ∷ log) = if j == ip then now ∷ times_of ip log else times_of ip log

module _ (double : ℕ → ℕ) (cfg : Config) (split_host_port : String → Option String) where
  -- What a request with an address leaves: the sets, and the addresses and times of those handed on.
  abbrev pub arrived : String → Call → Keys × List (String × ℕ) → Keys × List (String × ℕ)
  arrived ip c (ks, log) =
      let (answer, ks') =
        limited double cfg c.at c.member c.trip (cfg.prefix ++ (":" ++ ip)) (some ks) in
      (Option.get_or ks' ks, noted answer ip c.at log)

  abbrev pub arrive : Arrival → Keys × List (String × ℕ) → Keys × List (String × ℕ)
  arrive a (ks, log) =
      let (answer, ks') =
        by_ip double cfg a.call.at a.call.member a.call.trip split_host_port a.origin (some ks) in
      (Option.get_or ks' ks, noted answer (client_ip split_host_port a.origin) a.call.at log)

  abbrev pub arrivals : List Arrival → Keys × List (String × ℕ) → Keys × List (String × ℕ)
  arrivals [] s = s
  arrivals (a ∷ as') s = arrivals as' (arrive a s)

  -- The requests of one address.
  abbrev pub calls_of : String → List Arrival → List Call
  calls_of ip [] = []
  calls_of ip (a ∷ as') =
      if client_ip split_host_port a.origin == ip then a.call ∷ calls_of ip as' else calls_of ip as'

  abbrev key_of : String → String
  key_of ip = cfg.prefix ++ (":" ++ ip)

  key_of-injective : (ip jp : String) → key_of ip ≡ key_of jp → ip ≡ jp
  key_of-injective ip jp e =
      append_cancel_left ":" ip jp (append_cancel_left cfg.prefix (":" ++ ip) (":" ++ jp) e)

  -- What one address sees of the sets and of the log.
  abbrev view : String → Keys × List (String × ℕ) → SortedSet × List ℕ
  view ip s = (s.0 (key_of ip), times_of ip s.1)

  store-other :
      (ip jp : String) (z : SortedSet) (ks : Keys)
      → (jp == ip) ≡ false
      → store (key_of jp) z ks (key_of ip) ≡ ks (key_of ip)
  store-other ip jp z ks other = elim (Bool-cases (key_of ip == key_of jp)) [
    | inl y ↦ absurd (
        let same : ip ≡ jp =
          key_of-injective ip jp ((string_eq.beq_iff (key_of ip) (key_of jp)).0 y) in
        ground (arith, string_eq.beq_iff jp ip, sym same))
    | inr n ↦ rw n refl
  ]

  times-other :
      (ip jp : String) (answer : Answer) (now : ℕ) (log : List (String × ℕ))
      → (jp == ip) ≡ false
      → times_of ip (noted answer jp now log) ≡ times_of ip log
  times-other ip jp handed_on now log other = rw other refl
  times-other ip jp (answered status retry_after message) now log other = refl

  times-same :
      (ip : String) (d : Decision) (now : ℕ) (log : List (String × ℕ))
      → times_of ip (noted (answer_of cfg d) ip now log) ≡ note d.allowed now (times_of ip log)
  unfolding write_rate_limit_result
  times-same ip d now log = elim (Bool-cases d.allowed) [
    | inl y ↦ rw (y, beq_refl ip) refl
    | inr n ↦ elim (Bool-cases d.service_unavailable) [
      | inl m ↦ rw (n, m) refl
      | inr m ↦ rw (n, m) refl
    ]
  ]

  arrive-other :
      (ip jp : String) (c : Call) (s : Keys × List (String × ℕ))
      → (jp == ip) ≡ false
      → view ip (arrived jp c s) ≡ view ip s
  unfolding limited
  arrive-other ip jp c s other =
      let out =
        allow_request double cfg.limit cfg.window cfg.policy c.at c.member c.trip
          (some (s.0 (key_of jp))) in
      λ i. (
        store-other ip jp (Option.get_or out.1 (s.0 (key_of jp))) s.0 other i,
        times-other ip jp (answer_of cfg out.0) c.at s.1 other i,
      )

  arrive-same :
      (ip : String) (c : Call) (s : Keys × List (String × ℕ))
      → cfg.policy ≡ fail_closed
      → view ip (arrived ip c s) ≡ call double cfg.limit cfg.window c (view ip s)
  unfolding limited call
  arrive-same ip c s closed = rw (beq_refl (key_of ip), times-same ip _ c.at s.1, closed) refl

  -- What an address sees of one request.
  arrive-view :
      (ip : String) (a : Arrival) (s : Keys × List (String × ℕ))
      → cfg.policy ≡ fail_closed
      → view ip (arrive a s) ≡ (
          if client_ip split_host_port a.origin == ip
          then call double cfg.limit cfg.window a.call (view ip s)
          else view ip s)
  unfolding by_ip
  arrive-view ip a s closed = elim (Bool-cases (client_ip split_host_port a.origin == ip)) [
    | inl y ↦
        let same : client_ip split_host_port a.origin ≡ ip =
          (string_eq.beq_iff (client_ip split_host_port a.origin) ip).0 y in
        rw (same, beq_refl ip) (arrive-same ip a.call s closed)
    | inr n ↦ rw n (arrive-other ip (client_ip split_host_port a.origin) a.call s n)
  ]

  arrivals-serve :
      (ip : String) (as' : List Arrival) (s : Keys × List (String × ℕ))
      → cfg.policy ≡ fail_closed
      → view ip (arrivals as' s) ≡ serve double cfg.limit cfg.window (calls_of ip as') (view ip s)
  unfolding serve
  arrivals-serve ip [] s closed = refl
  arrivals-serve ip (a ∷ as') s closed =
      let served : SortedSet × List ℕ → SortedSet × List ℕ =
        serve double cfg.limit cfg.window (calls_of ip as') in
      let rest = arrivals-serve ip as' (arrive a s) closed in
      let one = arrive-view ip a s closed in
      elim (Bool-cases (client_ip split_host_port a.origin == ip)) [
        | inl y ↦ rw y (rest ∙ ap served (rw y at one))
        | inr n ↦ rw n (rest ∙ ap served (rw n at one))
      ]

abbrev pub no_keys : Keys
no_keys key = empty_set

-- The limiter by address with the policy that refuses when Redis cannot be asked, over any requests
-- from any addresses, each with an address resolved by the proxies or that of its connection: however
-- many requests of others lie between, at each request of an address that is handed on, at most
-- `limit` requests of this address were handed on in the time that ends there and is 256 nanoseconds
-- shorter than the window. The conditions on the conversion to a double and on the window are those of
-- the limiter, and the requests of the address satisfy its conditions on the clock and the members.
pub by_ip-WithinLimit :
    (double : ℕ → ℕ) (cfg : Config) (split_host_port : String → Option String)
    → ((m n : ℕ) → m ≤ n → double m ≤ double n)
    → ((m n : ℕ) → m + 256 < n → n < 2 ^ 61 → double m < double n)
    → (width : ℕ) → width + 256 ≤ cfg.window
    → cfg.window ≤ ttl_seconds cfg.window * 10 ^ 9
    → cfg.policy ≡ fail_closed
    → (as' : List Arrival) (ip : String)
    → Orderly double cfg.limit cfg.window 0
        (empty_set, [])
        (calls_of double cfg split_host_port ip as')
    → WithinLimit cfg.limit width
        (times_of ip (arrivals double cfg split_host_port as' (no_keys, [])).1)
by_ip-WithinLimit double cfg split_host_port monotone apart width shorter fits closed as' ip o =
    subst (λ v. WithinLimit cfg.limit width v.1)
      (sym (arrivals-serve double cfg split_host_port ip as' (no_keys, []) closed))
      (serve-WithinLimit double monotone apart cfg.limit cfg.window width
        (calls_of double cfg split_host_port ip as') shorter fits o)
