-- ===== src/RateLimit/History.antt =====
-- A sequence of requests for one key under the policy that refuses where Redis cannot be asked.
use mathlib.Core.Option
use stock_backend.Prelude.{
  ℕ, ◌+◌, ◌*◌, ◌^◌, ◌≤◌, ◌<◌, ◌≡◌, refl, Bool, true, false, none, some, List, [], ◌∷◌, arith, keep,
  any, nat_eq,
}
use stock_backend.RateLimit.{
  SortedSet, fail_closed, Trip, replied, lost_request, lost_reply, in_window, visible, ttl_seconds,
  rate_limit_script, allow_request, decide,
}
use stock_backend.RateLimit.Window.{Tracks, WithinLimit, has_member, note, past-le, script-Tracks}

-- One request: its time, the random part of its member, and what becomes of the round trip.
pub record Call : Type 0 where
  pub at : ℕ
  pub member : ℕ
  pub trip : Trip

-- The set behind a limiter with a Redis client, and the times of the requests let through.
unfoldable pub call : (ℕ → ℕ) → ℕ → ℕ → Call → SortedSet × List ℕ → SortedSet × List ℕ
call double limit window c (z, log) =
    let (d, z') = allow_request double limit window fail_closed c.at c.member c.trip (some z) in
    (Option.get_or z' z, note d.allowed c.at log)

unfoldable pub serve : (ℕ → ℕ) → ℕ → ℕ → List Call → SortedSet × List ℕ → SortedSet × List ℕ
serve double limit window [] s = s
serve double limit window (c ∷ cs) s = serve double limit window cs (call double limit window c s)

-- The clock does not run backwards and is before 2043, where doubles are at most 256 nanoseconds
-- apart, and no request draws a member that the set still holds.
abbrev pub Orderly : (ℕ → ℕ) → ℕ → ℕ → ℕ → SortedSet × List ℕ → List Call → Type 0
Orderly double limit window last s [] = Unit
Orderly double limit window last s (c ∷ cs) =
    (last ≤ c.at)
    × (c.at < 2 ^ 61)
    × (any (has_member c.member) (keep (in_window double c.at window) (visible c.at s.0)) ≡ false)
    × Orderly double limit window c.at (call double limit window c s) cs

decide-allowed : (window : ℕ) (b : Bool) → (decide window b).allowed ≡ b
decide-allowed window true = refl
decide-allowed window false = refl

module _ (double : ℕ → ℕ) (limit window width : ℕ) where
  Tracks-later :
      (last now : ℕ) (z : SortedSet) (log : List ℕ)
      → last ≤ now
      → Tracks double limit window width last z log
      → Tracks double limit window width now z log
  Tracks-later last now z log order t = record {
    past = past-le last now log order t.past;
    within = t.within;
    covered = λ later h. t.covered later (omega arith);
  }

  -- A request that Redis has counted and the caller has not let through.
  forget :
      (now : ℕ) (z : SortedSet) (b : Bool) (log : List ℕ)
      → Tracks double limit window width now z (note b now log)
      → Tracks double limit window width now z log
  forget now z false log t = t
  forget now z true log t = record {
    past = t.past.1;
    within = t.within.1;
    covered = λ later h. omega (arith, t.covered later h);
  }

module _ (double : ℕ → ℕ) (monotone : (m n : ℕ) → m ≤ n → double m ≤ double n)
    (apart : (m n : ℕ) → m + 256 < n → n < 2 ^ 61 → double m < double n) (limit window width : ℕ)
    (shorter : width + 256 ≤ window) (fits : window ≤ ttl_seconds window * 10 ^ 9) where
  call-Tracks :
      (last now member : ℕ) (trip : Trip) (z : SortedSet) (log : List ℕ)
      → last ≤ now
      → now < 2 ^ 61
      → any (has_member member) (keep (in_window double now window) (visible now z)) ≡ false
      → Tracks double limit window width last z log
      → (let s =
            call double limit window (record { at = now; member = member; trip = trip }) (z, log) in
          Tracks double limit window width now s.0 s.1)
  unfolding call allow_request
  call-Tracks last now member replied z log order soon new t =
      rw (decide-allowed window (rate_limit_script double limit window now member z).0) (
        script-Tracks double monotone apart limit window width last now member z log shorter fits
          order soon t new)
  call-Tracks last now member lost_request z log order soon new t =
      Tracks-later double limit window width last now z log order t
  call-Tracks last now member lost_reply z log order soon new t =
      forget double limit window width now (rate_limit_script double limit window now member z).1
        (rate_limit_script double limit window now member z).0 log
        (script-Tracks double monotone apart limit window width last now member z log shorter fits
          order soon t new)

  serve-Tracks :
      (last : ℕ) (s : SortedSet × List ℕ) (cs : List Call)
      → Tracks double limit window width last s.0 s.1
      → Orderly double limit window last s cs
      → (end : ℕ) × Tracks double limit window width end
          (serve double limit window cs s).0
          (serve double limit window cs s).1
  unfolding serve
  serve-Tracks last s [] t o = (last, t)
  serve-Tracks last s (c ∷ cs) t o =
      serve-Tracks c.at (call double limit window c s) cs
        (call-Tracks last c.at c.member c.trip s.0 s.1 o.0 o.1 o.2 t) o.3

abbrev pub empty_set : SortedSet
empty_set = record { entries = []; expires_at = none }

-- Under the policy that refuses when Redis cannot be asked, whichever round trips fail before or after
-- the script has run: at each request let through, at most `limit` requests lie in the time that ends
-- there and is 256 nanoseconds shorter than the window. The conversion of a time to a double is
-- monotone and separates times more than 256 nanoseconds apart before 2^61 (in 2043), the window is
-- covered by its whole seconds (or by one second), the clock does not run backwards and is before
-- 2^61, and no request draws a member that the set still holds.
pub serve-WithinLimit :
    (double : ℕ → ℕ)
    → ((m n : ℕ) → m ≤ n → double m ≤ double n)
    → ((m n : ℕ) → m + 256 < n → n < 2 ^ 61 → double m < double n)
    → (limit window width : ℕ) (cs : List Call) → width + 256 ≤ window
    → window ≤ ttl_seconds window * 10 ^ 9
    → Orderly double limit window 0 (empty_set, []) cs
    → WithinLimit limit width (serve double limit window cs (empty_set, [])).1
serve-WithinLimit double monotone apart limit window width cs shorter fits o =
    (serve-Tracks double monotone apart limit window width shorter fits 0 (empty_set, []) cs
      (record { past = tt; within = tt; covered = λ now h. omega arith }) o).1.within
