-- ===== src/Candles/Caching/Upsert.antt =====
-- `CachingRepository.UpsertBatch`: the candles go to the database, and the keys that they touch are
-- deleted from the cache. `fails` tells which deletions fail.
use stock_backend.Prelude.{
  ℕ, ◌≡◌, refl, sym, ◌∙◌, Bool, true, false, ◌&&◌, Option, none, some, List, [], ◌∷◌, String, arith,
  any, ◌==◌, if◌then◌else◌, string_eq, Bool-cases, inl, inr, ap,
}
use stock_backend.Database.{Result}
use stock_backend.Candles.Candle.{Candle}
use stock_backend.Candles.Caching.{Cache, lookup, delete, cache_key}
use stock_backend.Candles.Caching.Transparency.{IsCoherent, AllCoherent, lookup-delete}

abbrev pub is_pair : String → String → String × String → Bool
is_pair symbol interval (s, i) = s == symbol && i == interval

module _ {P : Type 0} where
  -- The keys of the map `seen`.
  unfoldable pub touched : List (Candle P) → List (String × String)
  touched [] = []
  touched (c ∷ cs) =
      let rest = touched cs in
      if any (is_pair c.symbol_code c.interval) rest
      then rest
      else (c.symbol_code, c.interval) ∷ rest

  module _ (namespace : String) (fails : String → Bool) where
    unfoldable pub invalidate : List (String × String) → Cache P → Cache P
    invalidate [] cache = cache
    invalidate ((s, i) ∷ ps) cache =
        let rest = invalidate ps cache in
        if fails (cache_key namespace s i) then rest else delete (cache_key namespace s i) rest

    abbrev pub after_upsert :
        Option ℕ → List (Candle P) → Option (Cache P) → Option ℕ × Option (Cache P)
    after_upsert (some e) cs cache = (some e, cache)
    after_upsert none cs none = (none, none)
    after_upsert none [] (some cache) = (none, some cache)
    after_upsert none (c ∷ cs) (some cache) = (none, some (invalidate (touched (c ∷ cs)) cache))

    -- The error of the database, if there is one, and the cache.
    unfoldable pub upsert_batch :
        (List (Candle P) → Option ℕ)
        → List (Candle P)
        → Option (Cache P)
        → Option ℕ × Option (Cache P)
    unfolding touched invalidate
    upsert_batch inner cs cache = after_upsert (inner cs) cs cache

  abbrev pub of_pair : String → String → Candle P → Bool
  of_pair symbol interval c = c.symbol_code == symbol && c.interval == interval

  touched_pair :
      (symbol interval : String) (cs : List (Candle P))
      → any (is_pair symbol interval) (touched cs) ≡ any (of_pair symbol interval) cs
  unfolding touched
  touched_pair symbol interval [] = refl
  touched_pair symbol interval (c ∷ cs) =
      elim (Bool-cases (any (is_pair c.symbol_code c.interval) (touched cs))) [
        | inl old ↦ rw old (
            ground (
              arith,
              touched_pair symbol interval cs,
              string_eq.beq_iff c.symbol_code symbol,
              string_eq.beq_iff c.interval interval,
            ))
        | inr new ↦ rw new (ground (arith, touched_pair symbol interval cs))
      ]

abbrev has_key : String → String → String × String → Bool
has_key namespace k (s, i) = cache_key namespace s i == k

abbrev pub never : String → Bool
never k = false

pair_has_key :
    (namespace symbol interval : String) (ps : List (String × String))
    → any (is_pair symbol interval) ps ≡ true
    → any (has_key namespace (cache_key namespace symbol interval)) ps ≡ true
pair_has_key namespace symbol interval [] h = absurd (ground arith)
pair_has_key namespace symbol interval ((s, i) ∷ ps) h = ground (
  arith,
  pair_has_key namespace symbol interval ps,
  string_eq.beq_iff s symbol,
  string_eq.beq_iff i interval,
  string_eq.beq_iff (cache_key namespace s i) (cache_key namespace symbol interval),
)

module _ {P : Type 0} (namespace : String) where
  lookup-invalidate :
      (k : String) (ps : List (String × String)) (cache : Cache P)
      → lookup k (invalidate namespace never ps cache)
        ≡ (if any (has_key namespace k) ps then none else lookup k cache)
  unfolding invalidate
  lookup-invalidate k [] cache = refl
  lookup-invalidate k ((s, i) ∷ ps) cache =
      lookup-delete (cache_key namespace s i) k (invalidate namespace never ps cache)
      ∙ ground (arith, lookup-invalidate k ps cache)

module _ {P : Type 0} (known_zone : String → Bool) (namespace : String)
    (rows rows' : String → String → Result ℕ (List (Candle P))) where
  -- The upsert changes the rows of the symbols and intervals of its candles only.
  abbrev pub ChangesOnly : List (Candle P) → Type 0
  ChangesOnly cs =
      (symbol interval : String)
      → any (of_pair symbol interval) cs ≡ false
      → rows symbol interval ≡ rows' symbol interval

  invalidate-IsCoherent :
      (cs : List (Candle P)) (cache : Cache P)
      → ChangesOnly cs
      → IsCoherent known_zone namespace rows cache
      → IsCoherent known_zone namespace rows' (invalidate namespace never (touched cs) cache)
  invalidate-IsCoherent cs cache only co k v there found symbol interval decodes key =
      elim (Bool-cases (any (of_pair symbol interval) cs)) [
        | inl hit ↦ absurd (
            ground (
              arith,
              lookup-invalidate namespace k (touched cs) cache,
              pair_has_key namespace symbol interval (touched cs),
              touched_pair symbol interval cs,
              ap (λ j. any (has_key namespace j) (touched cs)) key,
            ))
        | inr miss ↦ rw (sym (only symbol interval miss)) (
            co k v (ground (arith, lookup-invalidate namespace k (touched cs) cache)) found symbol
              interval decodes key)
      ]

  -- A batch that the database takes, and that changes the rows of the symbols and intervals of its
  -- candles only, leaves the cache coherent with the new rows, if every deletion reaches Redis.
  pub upsert_batch-coherent :
      (inner : List (Candle P) → Option ℕ) (cs : List (Candle P)) (cache : Option (Cache P))
      → inner cs ≡ none
      → ChangesOnly cs
      → AllCoherent known_zone namespace rows cache
      → AllCoherent known_zone namespace rows' (upsert_batch namespace never inner cs cache).1
  unfolding upsert_batch
  upsert_batch-coherent inner cs none stores only co = rw stores tt
  upsert_batch-coherent inner [] (some cache) stores only co =
      rw stores (invalidate-IsCoherent [] cache only co)
  upsert_batch-coherent inner (c ∷ cs) (some cache) stores only co =
      rw stores (invalidate-IsCoherent (c ∷ cs) cache only co)
