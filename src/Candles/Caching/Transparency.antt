-- ===== src/Candles/Caching/Transparency.antt =====
-- The reads of caching_repository.go against the repository behind the cache.
use stock_backend.Prelude.{
  ℕ, zero, suc, ◌≤◌, ◌≡◌, refl, sym, ◌∙◌, ap, Bool, true, false, Option, none, some, List, [], ◌∷◌,
  String, arith, ltb, ◌==◌, if◌then◌else◌, take, string_eq, Bool-cases, inl, inr, ◌⊎◌,
}
use stock_backend.Database.{Result, ok, err}
use stock_backend.Candles.Candle.{Candle}
use stock_backend.Candles.Caching.{
  Stored, entry, Cache, Faults, Error, lookup, delete, valid_size, limited, decode_cached_candles,
  inner_find, filled, fall_back, on_hit, on_get, got, through_cache, find, cache_key,
  latest_cache_size, set_nx, latest_cache_version,
}

value_or : {A E : Type 0} → A → Result E A → A
value_or d (ok x) = x
value_or d (err e) = d

ok-injective : {A E : Type 0} {x y : A} (r s : Result E A) → r ≡ ok x → s ≡ ok y → r ≡ s → x ≡ y
unfolding value_or
ok-injective {x = x} r s e f same =
    sym (ap (value_or x) e) ∙ ap (value_or x) same ∙ ap (value_or x) f

take-take : {A : Type 0} (n m : ℕ) (xs : List A) → n ≤ m → take n (take m xs) ≡ take n xs
take-take zero m xs h = refl
take-take (suc n) zero xs h = absurd (omega arith)
take-take (suc n) (suc m) [] h = refl
take-take (suc n) (suc m) (x ∷ xs) h = ap (◌∷◌ x) (take-take n m xs (omega arith))

pub lookup-delete :
    {P : Type 0} (k k' : String) (cache : Cache P)
    → lookup k' (delete k cache) ≡ (if k == k' then none else lookup k' cache)
unfolding lookup delete
lookup-delete k k' [] = ground arith
lookup-delete k k' ((j, v) ∷ cache) = ground (
  arith,
  lookup-delete k k' cache,
  string_eq.beq_iff j k,
  string_eq.beq_iff j k',
  string_eq.beq_iff k k',
)

-- What SET NX leaves under a key is what it wrote or what was there.
lookup-set_nx :
    {P : Type 0} (k k' : String) (new v : Stored P) (there : Option (Stored P)) (cache : Cache P)
    → lookup k' (set_nx k new there cache) ≡ some v
    → ((k ≡ k') × (new ≡ v)) ⊎ (lookup k' cache ≡ some v)
unfolding lookup
lookup-set_nx k k' new v none cache e = ground (arith, string_eq.beq_iff k k')
lookup-set_nx k k' new v (some old) cache e = inr e

decode_own :
    {P : Type 0} (known_zone : String → Bool) (cs cs' : List (Candle P))
    → decode_cached_candles known_zone (entry latest_cache_version (some cs)) ≡ some cs'
    → cs ≡ cs'
unfolding decode_cached_candles
decode_own known_zone cs cs' e = ground arith

module _ {P : Type 0} (known_zone : String → Bool) (namespace : String)
    (rows : String → String → Result ℕ (List (Candle P))) where
  -- What a value decodes to is what the database has for every symbol and interval of the key.
  abbrev pub Fresh : String → Stored P → Type 0
  Fresh k v =
      (cs : List (Candle P)) (symbol interval : String)
      → decode_cached_candles known_zone v ≡ some cs
      → k ≡ cache_key namespace symbol interval
      → limited latest_cache_size (rows symbol interval) ≡ ok cs

  abbrev pub IsCoherent : Cache P → Type 0
  IsCoherent cache = (k : String) (v : Stored P) → lookup k cache ≡ some v → Fresh k v

  -- Symbols and intervals that share a key share their candles.
  abbrev pub SharesRows : Type 0
  SharesRows =
      (s i s' i' : String)
      → cache_key namespace s i ≡ cache_key namespace s' i'
      → rows s i ≡ rows s' i'

  limited-take :
      (n : ℕ) (r : Result ℕ (List (Candle P))) (cs : List (Candle P))
      → n ≤ latest_cache_size
      → limited latest_cache_size r ≡ ok cs
      → limited n r ≡ ok (take n cs)
  limited-take n (ok all) cs h e =
      ap (λ z. ok z)
        (sym (take-take n latest_cache_size all h) ∙ ap (take n) (ok-injective _ _ refl refl e))
  limited-take n (err x) cs h e = absurd (ground arith)

  limited-err :
      (n : ℕ) (r : Result ℕ (List (Candle P))) (x : Error)
      → limited latest_cache_size r ≡ err x
      → limited n r ≡ err x
  limited-err n (ok all) x e = absurd (ground arith)
  limited-err n (err y) x e = e

  filled-IsCoherent :
      (fails : Bool) (symbol interval : String) (cs : List (Candle P)) (cache : Cache P)
      → SharesRows
      → limited latest_cache_size (rows symbol interval) ≡ ok cs
      → IsCoherent cache
      → IsCoherent (filled fails (cache_key namespace symbol interval) cs cache)
  filled-IsCoherent true symbol interval cs cache shares e co = co
  filled-IsCoherent false symbol interval cs cache shares e co = λ k v there cs' s i dec key.
      elim (lookup-set_nx _ k _ v (lookup (cache_key namespace symbol interval) cache) cache
        there) [
          | inl (same, wrote) ↦
              ap (limited latest_cache_size) (sym (shares symbol interval s i (same ∙ key)))
              ∙ e
              ∙ ap (λ z. ok z)
                  (decode_own known_zone cs cs' (ap (decode_cached_candles known_zone) wrote ∙ dec))
          | inr old ↦ co k v old cs' s i dec key
        ]

  delete-IsCoherent :
      (k : String) (cache : Cache P) → IsCoherent cache → IsCoherent (delete k cache)
  delete-IsCoherent k cache co k' v e = co k' v (ground (arith, lookup-delete k k' cache))

  -- What a read answers, and that the cache stays coherent.
  abbrev Answers : String → String → ℕ → Result Error (List (Candle P)) × Cache P → Type 0
  Answers symbol interval n s = (s.0 ≡ limited n (rows symbol interval)) × IsCoherent s.1

  fall_back-Answers :
      (faults : Faults) (symbol interval : String) (n : ℕ) (cache : Cache P)
      (r : Result Error (List (Candle P)))
      → n ≤ latest_cache_size
      → SharesRows
      → IsCoherent cache
      → limited latest_cache_size (rows symbol interval) ≡ r
      → Answers symbol interval n (
          fall_back known_zone namespace rows faults
            (cache_key namespace symbol interval)
            n
            cache
            r)
  fall_back-Answers faults symbol interval n cache (err x) small shares co e =
      (sym (limited-err n (rows symbol interval) x e), co)
  fall_back-Answers faults symbol interval n cache (ok cs) small shares co e = (
    sym (limited-take n (rows symbol interval) cs small e),
    filled-IsCoherent faults.set_fails symbol interval cs cache shares e co,
  )

  inner_find_latest :
      (symbol interval : String)
      → limited latest_cache_size (rows symbol interval)
        ≡ inner_find known_zone namespace rows symbol interval latest_cache_size
  unfolding inner_find
  inner_find_latest symbol interval = refl

  after_delete :
      (fails : Bool) (k : String) (cache : Cache P)
      → IsCoherent cache
      → IsCoherent (if fails then cache else delete k cache)
  after_delete true k cache co = co
  after_delete false k cache co = delete-IsCoherent k cache co

  on_hit-Answers :
      (faults : Faults) (symbol interval : String) (n : ℕ) (cache : Cache P) (v : Stored P)
      (decoded : Option (List (Candle P)))
      → n ≤ latest_cache_size
      → SharesRows
      → IsCoherent cache
      → Fresh (cache_key namespace symbol interval) v
      → decode_cached_candles known_zone v ≡ decoded
      → Answers symbol interval n (
          on_hit known_zone namespace rows faults symbol interval
            (cache_key namespace symbol interval)
            n
            cache
            decoded)
  on_hit-Answers faults symbol interval n cache v (some cs) small shares co fresh e =
      (sym (limited-take n (rows symbol interval) cs small (fresh cs symbol interval e refl)), co)
  on_hit-Answers faults symbol interval n cache v none small shares co fresh e =
      fall_back-Answers faults symbol interval n _ _ small shares
        (after_delete faults.del_fails (cache_key namespace symbol interval) cache co)
        (inner_find_latest symbol interval)

  on_get-Answers :
      (faults : Faults) (symbol interval : String) (n : ℕ) (cache : Cache P) (fails : Bool)
      (there : Option (Stored P))
      → n ≤ latest_cache_size
      → SharesRows
      → IsCoherent cache
      → lookup (cache_key namespace symbol interval) cache ≡ there
      → Answers symbol interval n (
          on_get known_zone namespace rows faults symbol interval
            (cache_key namespace symbol interval)
            n
            cache
            (got known_zone namespace rows fails there))
  on_get-Answers faults symbol interval n cache true there small shares co e =
      fall_back-Answers faults symbol interval n cache _ small shares co
        (inner_find_latest symbol interval)
  on_get-Answers faults symbol interval n cache false none small shares co e =
      fall_back-Answers faults symbol interval n cache _ small shares co
        (inner_find_latest symbol interval)
  on_get-Answers faults symbol interval n cache false (some v) small shares co e =
      on_hit-Answers faults symbol interval n cache v _ small shares co (co _ v e) refl

  -- The cache of a repository that may have no Redis client.
  abbrev pub AllCoherent : Option (Cache P) → Type 0
  AllCoherent none = Unit
  AllCoherent (some cache) = IsCoherent cache

  through_cache-answers :
      (faults : Faults) (symbol interval : String) (n : ℕ) (cache : Option (Cache P))
      → valid_size n ≡ true
      → n ≤ latest_cache_size
      → SharesRows
      → AllCoherent cache
      → (let s = through_cache known_zone namespace rows faults symbol interval n cache in
          (s.0 ≡ limited n (rows symbol interval)) × AllCoherent s.1)
  unfolding inner_find
  through_cache-answers faults symbol interval n none valid small shares co = rw valid (refl, tt)
  through_cache-answers faults symbol interval n (some cache) valid small shares co =
      on_get-Answers faults symbol interval n cache faults.get_fails _ small shares co refl

  -- For a coherent cache, where symbols and intervals that share a key share their candles: whichever
  -- round trips to Redis fail, and for every size, `find` answers what the repository behind it answers,
  -- its errors included, and leaves a coherent cache.
  pub find-transparent :
      (faults : Faults) (symbol interval : String) (n : ℕ) (cache : Option (Cache P))
      → SharesRows
      → AllCoherent cache
      → (let s = find known_zone namespace rows faults symbol interval n cache in
          (s.0 ≡ inner_find known_zone namespace rows symbol interval n) × AllCoherent s.1)
  unfolding find
  find-transparent faults symbol interval n cache shares co = elim (Bool-cases (valid_size n)) [
    | inr bad ↦ rw bad (refl, co)
    | inl good ↦ elim (Bool-cases (ltb latest_cache_size n)) [
      | inl large ↦ rw (good, large) (refl, co)
      | inr small ↦
          rw (good, small)
            (through_cache-answers faults symbol interval n cache good (ground arith) shares co)
    ]
  ]
