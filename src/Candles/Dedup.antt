-- ===== src/Candles/Dedup.antt =====
-- `dedupCandles` of ingest.go: the first candle of each (symbol, interval, second) stays. `%d` of the
-- seconds is `decimal`, which is Go's.
use stock_backend.Prelude.{
  ℕ, ◌/◌, ◌^◌, ◌≡◌, ◌≢◌, Bool, true, false, ◌||◌, none, List, [], ◌∷◌, String, arith, ◌==◌,
  if◌then◌else◌, All, find_by, Distinct, Bool-cases, inl, inr, string_eq, beq_refl,
}
use Prim.Native.String.{◌++◌}
use stock_backend.Candles.Candle.{Candle}

-- The map `seen`, as a list of its keys.
abbrev pub is_seen : String → List String → Bool
is_seen k [] = false
is_seen k (s ∷ seen) = s == k || is_seen k seen

module _ {P : Type 0} (decimal : ℕ → String) where
  -- "%s|%s|%d" of the symbol, the interval and the seconds.
  unfoldable pub candle_key : Candle P → String
  candle_key c = c.symbol_code ++ ("|" ++ (c.interval ++ ("|" ++ decimal (c.time / 10 ^ 9))))

  unfoldable pub dedup_loop : List String → List (Candle P) → List (Candle P)
  dedup_loop seen [] = []
  dedup_loop seen (c ∷ cs) =
      let new = c ∷ dedup_loop (candle_key c ∷ seen) cs in
      let old = dedup_loop seen cs in if is_seen (candle_key c) seen then old else new

  unfoldable pub dedup_candles : List (Candle P) → List (Candle P)
  unfolding dedup_loop
  dedup_candles = dedup_loop []

  abbrev pub same_key : String → Candle P → Bool
  same_key k c = candle_key c == k

  find_by-dedup_loop :
      (k : String) (seen : List String) (cs : List (Candle P))
      → find_by (same_key k) (dedup_loop seen cs)
        ≡ (if is_seen k seen then none else find_by (same_key k) cs)
  unfolding dedup_loop
  find_by-dedup_loop k seen [] = ground arith
  find_by-dedup_loop k seen (c ∷ cs) = ground (
    arith,
    string_eq.beq_iff (candle_key c) k,
    find_by-dedup_loop k seen cs,
    find_by-dedup_loop k (candle_key c ∷ seen) cs,
  )

  -- What is kept has none of the keys seen before.
  dedup_loop-unseen :
      (k : String) (seen : List String) (cs : List (Candle P))
      → is_seen k seen ≡ true
      → All (λ c. candle_key c ≢ k) (dedup_loop seen cs)
  unfolding dedup_loop
  dedup_loop-unseen k seen [] h = tt
  dedup_loop-unseen k seen (c ∷ cs) h = elim (Bool-cases (is_seen (candle_key c) seen)) [
    | inl old ↦ rw old (dedup_loop-unseen k seen cs h)
    | inr new ↦
        rw new
          (λ same. cc (new, h, same), dedup_loop-unseen k (candle_key c ∷ seen) cs (ground arith))
  ]

  dedup_loop-Distinct :
      (seen : List String) (cs : List (Candle P)) → Distinct candle_key (dedup_loop seen cs)
  unfolding dedup_loop
  dedup_loop-Distinct seen [] = tt
  dedup_loop-Distinct seen (c ∷ cs) = elim (Bool-cases (is_seen (candle_key c) seen)) [
    | inl old ↦ rw old (dedup_loop-Distinct seen cs)
    | inr new ↦ rw new (
      dedup_loop-unseen (candle_key c) (candle_key c ∷ seen) cs
          (ground (arith, beq_refl (candle_key c))),
      dedup_loop-Distinct (candle_key c ∷ seen) cs,
    )
  ]

  -- The batch that goes to the database has no two candles of one key, so that no row is updated
  -- twice by one statement; and for every key it has the first candle of the input with that key, if
  -- there is one.
  pub dedup_candles-first :
      (cs : List (Candle P))
      → Distinct candle_key (dedup_candles cs)
        × ((k : String) → find_by (same_key k) (dedup_candles cs) ≡ find_by (same_key k) cs)
  unfolding dedup_candles
  dedup_candles-first cs = (dedup_loop-Distinct [] cs, λ k. find_by-dedup_loop k [] cs)
