-- ===== src/RateLimit/Window.antt =====
-- The script of limiter.go against the log of the requests let through.
use stock_backend.Prelude.{
  ℕ, ◌+◌, ◌-◌, ◌*◌, ◌^◌, ◌≤◌, ◌<◌, ◌≡◌, refl, Bool, true, false, Option, none, some, List, [], ◌∷◌,
  arith, ltb, leb, length, keep, keep_all, any, count_by, All, All-map, nat_eq, ◌==◌, Bool-cases,
  inl, inr,
}
use stock_backend.RateLimit.{
  Entry, SortedSet, in_window, zadd, visible, unexpired, expiry_left, ttl_seconds,
  rate_limit_script,
}

-- The members of the set.
abbrev pub has_member : ℕ → Entry → Bool
has_member m e = e.member == m

-- Of the times at which requests were let through, those less than a window before `now`.
abbrev pub recent : ℕ → ℕ → List ℕ → ℕ
recent now window = count_by (λ at. ltb now (at + window))

-- A member that the set does not have makes it grow.
zadd_new : (e : Entry) (es : List Entry) → any (has_member e.member) es ≡ false → zadd e es ≡ e ∷ es
unfolding zadd
zadd_new e es h = rw (keep_all (has_member e.member) es h)

recent_old :
    (now window last : ℕ) (log : List ℕ)
    → All (λ at. at ≤ last) log
    → last + window ≤ now
    → recent now window log ≡ 0
recent_old now window last [] h old = refl
recent_old now window last (at ∷ log) h old = ground (arith, recent_old now window last log h.1)

-- At each request let through, at most `limit` requests lie in the window that ends there. The list
-- holds the times, the latest first.
abbrev pub WithinLimit : ℕ → ℕ → List ℕ → Type 0
WithinLimit limit window [] = Unit
WithinLimit limit window (at ∷ log) =
    (recent at window (at ∷ log) ≤ limit) × WithinLimit limit window log

abbrev pub note : Bool → ℕ → List ℕ → List ℕ
note true now log = now ∷ log
note false now log = log

pub past-le :
    (last now : ℕ) (log : List ℕ)
    → last ≤ now
    → All (λ at. at ≤ last) log
    → All (λ at. at ≤ now) log
past-le last now log h = All-map (λ at. at ≤ last) (λ at. at ≤ now) (λ at p. omega arith) log

module _ (double : ℕ → ℕ) where
  abbrev pub recent_entries : ℕ → ℕ → List Entry → ℕ
  recent_entries now window = count_by (in_window double now window)

  recent_entries-le-length :
      (now window : ℕ) (es : List Entry) → recent_entries now window es ≤ length es
  recent_entries-le-length now window [] = omega arith
  recent_entries-le-length now window (e ∷ es) =
      ground (arith, recent_entries-le-length now window es)

  -- A key that expires hides what it held.
  visible-recent_entries :
      (window now later : ℕ) (z : SortedSet)
      → now ≤ later
      → recent_entries later window (visible later z) ≤ recent_entries later window (visible now z)
  unfolding visible
  visible-recent_entries window now later z h = unexpired-recent_entries z.expires_at
    where
      unexpired-recent_entries :
          (at : Option ℕ)
          → recent_entries later window (unexpired later at z.entries)
            ≤ recent_entries later window (unexpired now at z.entries)
      unexpired-recent_entries none = omega arith
      unexpired-recent_entries (some at) = ground arith

  left_visible :
      (window later r : ℕ) (at : Option ℕ) (raw es : List Entry)
      → r ≤ recent_entries later window (unexpired later at raw)
      → r ≤ recent_entries later window es
      → r ≤ recent_entries later window (unexpired later (expiry_left es at) es)
  left_visible window later r at raw [] h k = k
  left_visible window later r none raw (e ∷ es) h k = k
  left_visible window later r (some at) raw (e ∷ es) h k = ground arith

  -- The set has an entry for each request that the shorter window `width` still holds.
  pub record Tracks (limit window width last : ℕ) (z : SortedSet) (log : List ℕ) : Type 0 where
    pub past : All (λ at. at ≤ last) log
    pub within : WithinLimit limit width log
    pub covered :
        (now : ℕ) → last ≤ now → recent now width log ≤ recent_entries now window (visible now z)

  module _ (monotone : (m n : ℕ) → m ≤ n → double m ≤ double n) where
    still_out :
        (window now later : ℕ) (e : Entry)
        → now ≤ later
        → in_window double now window e ≡ false
        → in_window double later window e ≡ false
    still_out window now later e h out = ground (arith, monotone (now - window) (later - window))

    keep-recent_entries :
        (window now later : ℕ) (es : List Entry)
        → now ≤ later
        → recent_entries later window (keep (in_window double now window) es)
          ≡ recent_entries later window es
    keep-recent_entries window now later [] h = refl
    keep-recent_entries window now later (e ∷ es) h =
        let rest = keep-recent_entries window now later es h in
        elim (Bool-cases (in_window double now window e)) [
          | inl y ↦ rw (y, rest) refl
          | inr n ↦ rw (n, still_out window now later e h n) (omega (arith, rest))
        ]

    module _ (apart : (m n : ℕ) → m + 256 < n → n < 2 ^ 61 → double m < double n)
        (limit window width last now member : ℕ) (z : SortedSet) (log : List ℕ)
        (shorter : width + 256 ≤ window) (fits : window ≤ ttl_seconds window * 10 ^ 9)
        (order : last ≤ now) (soon : now < 2 ^ 61) (t : Tracks limit window width last z log) where
      abbrev pub kept : List Entry
      kept = keep (in_window double now window) (visible now z)

      abbrev counted_entry : Entry
      counted_entry = record { score = double now; member = member }

      kept_covers :
          (later : ℕ) → now ≤ later → recent later width log ≤ recent_entries later window kept
      kept_covers later h = omega (
        arith,
        t.covered later (omega arith),
        visible-recent_entries window now later z h,
        keep-recent_entries window now later (visible now z) h,
      )

      -- The request let through has a score that the script still finds.
      new_in_window :
          (later : ℕ) → later < now + width → in_window double later window counted_entry ≡ true
      new_in_window later h = ground (arith, apart (later - window) now)

      new_covers :
          (later : ℕ)
          → now ≤ later
          → recent later width (now ∷ log) ≤ recent_entries later window (counted_entry ∷ kept)
      new_covers later h = ground (arith, kept_covers later h, new_in_window later)

      allowed-Tracks :
          any (has_member member) kept ≡ false
          → length kept < limit
          → Tracks limit window width now
              (record {
                entries = zadd (record { score = double now; member = member }) kept;
                expires_at = some (now + ttl_seconds window * 10 ^ 9);
              })
              (now ∷ log)
      unfolding visible
      allowed-Tracks new room =
          rw (zadd_new (record { score = double now; member = member }) kept new) (record {
            past = (omega arith, past-le last now log order t.past);
            within = (
              ground (arith, kept_covers now, recent_entries-le-length now window kept),
              t.within,
            );
            covered = λ later h. elim (Bool-cases (leb (now + ttl_seconds window * 10 ^ 9) later)) [
              | inl gone ↦ ground (
                arith,
                recent_old later width now (now ∷ log)
                    (omega arith, past-le last now log order t.past),
              )
              | inr there ↦ rw there (new_covers later h)
            ];
          })

      -- What is kept stays visible as long as the set does.
      denied_covers :
          (later : ℕ)
          → now ≤ later
          → recent later width log
            ≤ recent_entries later window (
                visible later
                  (record { entries = kept; expires_at = expiry_left kept z.expires_at }))
      unfolding visible
      denied_covers later h =
          left_visible window later _ z.expires_at z.entries kept (t.covered later (omega arith))
            (kept_covers later h)

      denied-Tracks :
          Tracks limit window width now
            (record { entries = kept; expires_at = expiry_left kept z.expires_at })
            log
      denied-Tracks = record {
        past = past-le last now log order t.past;
        within = t.within;
        covered = λ later h. denied_covers later h;
      }

      pub script-Tracks :
          any (has_member member) kept ≡ false
          → (let out = rate_limit_script double limit window now member z in
              Tracks limit window width now out.1 (note out.0 now log))
      unfolding rate_limit_script
      script-Tracks new = elim (Bool-cases (ltb (length kept) limit)) [
        | inl room ↦ rw room (allowed-Tracks new (ground arith))
        | inr full ↦ rw full denied-Tracks
      ]
