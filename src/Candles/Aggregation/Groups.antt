-- ===== src/Candles/Aggregation/Groups.antt =====
-- The buckets of `aggregate` (aggregation.go) against their description.
use stock_backend.Prelude.{
  ℕ, ◌≡◌, refl, ◌≢◌, ◌∙◌, Bool, Option, none, some, List, [], ◌∷◌, arith, ◌==◌, Eq, if◌then◌else◌,
  All, keep, Distinct, Bool-cases, inl, inr,
}
use stock_backend.Candles.Candle.{Candle, Float64}
use stock_backend.Candles.Aggregation.{Bucket, new_bucket, merge, add_candle, collect, add64}

module _ (f : Float64) {K : Type 0} ⦃e : Eq K⦄ (key : ℕ → K) (start : ℕ → ℕ) where
  open f use {Carrier, less}

  abbrev pub bucket_at : K → List (K × Bucket Carrier) → Option (Bucket Carrier)
  bucket_at k [] = none
  bucket_at k ((j, b) ∷ bs) = if j == k then some b else bucket_at k bs

  -- What one more candle of a key makes of its bucket.
  abbrev pub grow : Option (Bucket Carrier) → Candle Carrier → Option (Bucket Carrier)
  grow none c = some (new_bucket f key start c)
  grow (some b) c = some (merge f key start b c)

  abbrev pub grow_all : Option (Bucket Carrier) → List (Candle Carrier) → Option (Bucket Carrier)
  grow_all o [] = o
  grow_all o (c ∷ cs) = grow_all (grow o c) cs

  abbrev pub of_key : K → Candle Carrier → Bool
  of_key k c = key c.time == k

  bucket_at-add_candle :
      (k : K) (bs : List (K × Bucket Carrier)) (c : Candle Carrier)
      → bucket_at k (add_candle f key start bs c)
        ≡ (if of_key k c then grow (bucket_at k bs) c else bucket_at k bs)
  unfolding add_candle
  bucket_at-add_candle k [] c = ground arith
  bucket_at-add_candle k ((j, b) ∷ bs) c = ground (
    arith,
    e.beq_iff j k,
    e.beq_iff j (key c.time),
    e.beq_iff (key c.time) k,
    bucket_at-add_candle k bs c,
  )

  bucket_at-collect :
      (k : K) (bs : List (K × Bucket Carrier)) (cs : List (Candle Carrier))
      → bucket_at k (collect f key start bs cs) ≡ grow_all (bucket_at k bs) (keep (of_key k) cs)
  unfolding collect
  bucket_at-collect k bs [] = refl
  bucket_at-collect k bs (c ∷ cs) =
      bucket_at-collect k (add_candle f key start bs c) cs
      ∙ rw (bucket_at-add_candle k bs c)
          (elim (Bool-cases (of_key k c)) [ inl hit ↦ rw hit refl | inr miss ↦ rw miss refl ])

  abbrev pub highest : Carrier → List (Candle Carrier) → Carrier
  highest h [] = h
  highest h (c ∷ cs) = highest (if less h c.high then c.high else h) cs

  abbrev pub lowest : Carrier → List (Candle Carrier) → Carrier
  lowest l [] = l
  lowest l (c ∷ cs) = lowest (if less c.low l then c.low else l) cs

  abbrev pub last_close : Carrier → List (Candle Carrier) → Carrier
  last_close p [] = p
  last_close p (c ∷ cs) = last_close c.close cs

  abbrev pub total_volume : ℕ → List (Candle Carrier) → ℕ
  total_volume v [] = v
  total_volume v (c ∷ cs) = total_volume (add64 v c.volume) cs

  -- A group told field by field: open of the first, close of the last, the extremes, the sum.
  abbrev pub summary : List (Candle Carrier) → Option (Bucket Carrier)
  summary [] = none
  summary (c ∷ cs) = some (record {
    open_price = c.open_price;
    high = highest c.high cs;
    low = lowest c.low cs;
    close = last_close c.close cs;
    volume = total_volume c.volume cs;
    time = start c.time;
  })

  grow_all-some :
      (b : Bucket Carrier) (cs : List (Candle Carrier))
      → grow_all (some b) cs
        ≡ some (record b {
          high = highest b.high cs;
          low = lowest b.low cs;
          close = last_close b.close cs;
          volume = total_volume b.volume cs;
        })
  unfolding merge
  grow_all-some b [] = refl
  grow_all-some b (c ∷ cs) = grow_all-some (merge f key start b c) cs

  grow_all-summary : (cs : List (Candle Carrier)) → grow_all none cs ≡ summary cs
  unfolding new_bucket
  grow_all-summary [] = refl
  grow_all-summary (c ∷ cs) = grow_all-some (new_bucket f key start c) cs

  -- The bucket of each key is the summary of the candles with that key, in order; a key that no candle
  -- has gets no bucket.
  pub collect-summary :
      (k : K) (cs : List (Candle Carrier))
      → bucket_at k (collect f key start [] cs) ≡ summary (keep (of_key k) cs)
  collect-summary k cs = bucket_at-collect k [] cs ∙ grow_all-summary (keep (of_key k) cs)

  add_candle-All :
      (k : K) (bs : List (K × Bucket Carrier)) (c : Candle Carrier)
      → key c.time ≢ k
      → All (λ (b : K × Bucket Carrier). b.0 ≢ k) bs
      → All (λ (b : K × Bucket Carrier). b.0 ≢ k) (add_candle f key start bs c)
  unfolding add_candle
  add_candle-All k [] c ne h = (ne, tt)
  add_candle-All k ((j, b) ∷ bs) c ne h = elim (Bool-cases (j == key c.time)) [
    | inl hit ↦ rw hit h
    | inr miss ↦ rw miss (h.0, add_candle-All k bs c ne h.1)
  ]

  add_candle-Distinct :
      (bs : List (K × Bucket Carrier)) (c : Candle Carrier)
      → Distinct (λ (b : K × Bucket Carrier). b.0) bs
      → Distinct (λ (b : K × Bucket Carrier). b.0) (add_candle f key start bs c)
  unfolding add_candle
  add_candle-Distinct [] c d = (tt, tt)
  add_candle-Distinct ((j, b) ∷ bs) c d = elim (Bool-cases (j == key c.time)) [
    | inl hit ↦ rw hit d
    | inr miss ↦ rw miss (
      add_candle-All j bs c (λ same. ground (arith, (e.beq_iff j (key c.time)).1)) d.0,
      add_candle-Distinct bs c d.1,
    )
  ]

  -- No key has two buckets.
  pub collect-Distinct :
      (bs : List (K × Bucket Carrier)) (cs : List (Candle Carrier))
      → Distinct (λ (b : K × Bucket Carrier). b.0) bs
      → Distinct (λ (b : K × Bucket Carrier). b.0) (collect f key start bs cs)
  unfolding collect
  collect-Distinct bs [] d = d
  collect-Distinct bs (c ∷ cs) d =
      collect-Distinct (add_candle f key start bs c) cs (add_candle-Distinct bs c d)
