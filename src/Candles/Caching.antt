-- ===== src/Candles/Caching.antt =====
-- caching_repository.go: the latest candles of a symbol and an interval in front of the database. The
-- database is the argument `rows`, all candles of a symbol and an interval from the latest on, as the
-- query of candlessqlc orders them, or an error. Redis is a list of keys and values; a value is what the JSON
-- decoder makes of its bytes. An entry that expires is one that `lookup` no longer finds.
pub mod Transparency
pub mod Upsert
use Prim.Native.Char.{Char, code}
use Prim.Native.String.{◌++◌}
use stock_backend.Prelude.{
  ℕ, ◌+◌, ◌≡◌, Bool, true, false, not, ◌&&◌, ◌||◌, Option, none, some, List, [], ◌∷◌, String, ltb,
  leb, ◌==◌, if◌then◌else◌, length, take, nat_eq, string_eq,
}
use stock_backend.Database.{Result, ok, err}
use stock_backend.Candles.Candle.{Candle}

abbrev pub max_output_size : ℕ
max_output_size = 5000

abbrev pub latest_cache_size : ℕ
latest_cache_size = 200

abbrev pub latest_cache_version : ℕ
latest_cache_version = 2

pub data Error : Type 0 where
  invalid_output_size : Error
  database : ℕ → Error

-- `safeCacheKey`: blanks and colons become underscores.
unfoldable pub safe_cache_key : String → String
safe_cache_key String.[] = String.[]
safe_cache_key (String.◌∷◌ c s) =
    String.◌∷◌ (if code c == b' ' || code c == b':' then "_" else c) (safe_cache_key s)

unfoldable pub cache_key : String → String → String → String
unfolding safe_cache_key
cache_key namespace symbol interval =
    namespace ++ (":" ++ (safe_cache_key symbol ++ (":" ++ safe_cache_key interval)))

-- The bytes of a value: an old array of candles, an object with a version and perhaps candles, or what
-- the decoder refuses.
pub data Stored (P : Type 0) : Type 0 where
  legacy : List (Candle P) → Stored P
  entry : ℕ → Option (List (Candle P)) → Stored P
  corrupt : Stored P

abbrev pub Cache : Type 0 → Type 0
Cache P = List (String × Stored P)

-- Which round trips to Redis fail.
pub record Faults : Type 0 where
  pub get_fails : Bool
  pub del_fails : Bool
  pub set_fails : Bool

-- The guard that both repositories make.
abbrev pub valid_size : ℕ → Bool
valid_size n = not (n == 0) && leb n max_output_size

module _ {P : Type 0} where
  unfoldable pub lookup : String → Cache P → Option (Stored P)
  lookup k [] = none
  lookup k ((j, v) ∷ ms) = if j == k then some v else lookup k ms

  unfoldable pub delete : String → Cache P → Cache P
  delete k [] = []
  delete k ((j, v) ∷ ms) = let rest = delete k ms in if j == k then rest else (j, v) ∷ rest

  -- `dbRepository.Find` past its guard.
  abbrev pub limited : ℕ → Result ℕ (List (Candle P)) → Result Error (List (Candle P))
  limited n (ok cs) = ok (take n cs)
  limited n (err e) = err (database e)

  -- SET with NX: only where the key holds nothing.
  abbrev pub set_nx : String → Stored P → Option (Stored P) → Cache P → Cache P
  set_nx k v none cache = (k, v) ∷ cache
  set_nx k v (some old) cache = cache

  abbrev pub filled : Bool → String → List (Candle P) → Cache P → Cache P
  filled true k cs cache = cache
  filled false k cs cache = set_nx k (entry latest_cache_version (some cs)) (lookup k cache) cache

module _ {P : Type 0} (known_zone : String → Bool) where
  -- `restoreCachedTimezone`; `time.LoadLocation` succeeds for the known zones.
  unfoldable pub zones_known : List (Candle P) → Bool
  zones_known [] = true
  zones_known (c ∷ cs) =
      not (c.timezone == "" || c.timezone == "Local") && known_zone c.timezone && zones_known cs

  abbrev pub restored : List (Candle P) → Option (List (Candle P))
  restored cs = if zones_known cs then some cs else none

  abbrev pub decode_entry : ℕ → Option (List (Candle P)) → Option (List (Candle P))
  decode_entry version none = none
  decode_entry version (some cs) = if version == latest_cache_version then restored cs else none

  -- `decodeCachedCandles`
  unfoldable pub decode_cached_candles : Stored P → Option (List (Candle P))
  unfolding zones_known
  decode_cached_candles (legacy cs) = restored cs
  decode_cached_candles (entry version cs) = decode_entry version cs
  decode_cached_candles corrupt = none

module _ {P : Type 0} (known_zone : String → Bool) (namespace : String)
    (rows : String → String → Result ℕ (List (Candle P))) where
  unfoldable pub inner_find : String → String → ℕ → Result Error (List (Candle P))
  inner_find symbol interval n =
      if valid_size n then limited n (rows symbol interval) else err invalid_output_size

  abbrev pub fall_back :
      Faults
      → String
      → ℕ
      → Cache P
      → Result Error (List (Candle P))
      → Result Error (List (Candle P)) × Cache P
  fall_back faults k n cache (err e) = (err e, cache)
  fall_back faults k n cache (ok cs) = (ok (take n cs), filled faults.set_fails k cs cache)

  -- A value that does not decode is deleted.
  abbrev pub on_hit :
      Faults
      → String
      → String
      → String
      → ℕ
      → Cache P
      → Option (List (Candle P))
      → Result Error (List (Candle P)) × Cache P
  on_hit faults symbol interval k n cache (some cs) = (ok (take n cs), cache)
  on_hit faults symbol interval k n cache none =
      fall_back faults k n (if faults.del_fails then cache else delete k cache)
        (inner_find symbol interval latest_cache_size)

  abbrev pub on_get :
      Faults
      → String
      → String
      → String
      → ℕ
      → Cache P
      → Option (Stored P)
      → Result Error (List (Candle P)) × Cache P
  on_get faults symbol interval k n cache none =
      fall_back faults k n cache (inner_find symbol interval latest_cache_size)
  on_get faults symbol interval k n cache (some v) =
      on_hit faults symbol interval k n cache (decode_cached_candles known_zone v)

  abbrev pub got : Bool → Option (Stored P) → Option (Stored P)
  got true v = none
  got false v = v

  abbrev pub through_cache :
      Faults
      → String
      → String
      → ℕ
      → Option (Cache P)
      → Result Error (List (Candle P)) × Option (Cache P)
  through_cache faults symbol interval n none = (inner_find symbol interval n, none)
  through_cache faults symbol interval n (some cache) =
      let k : String = cache_key namespace symbol interval in
      let (r, cache') =
        on_get faults symbol interval k n cache (got faults.get_fails (lookup k cache)) in
      (r, some cache')

  -- `CachingRepository.Find`; `none` is no Redis client.
  unfoldable pub find :
      Faults
      → String
      → String
      → ℕ
      → Option (Cache P)
      → Result Error (List (Candle P)) × Option (Cache P)
  unfolding inner_find decode_cached_candles lookup delete cache_key
  find faults symbol interval n cache =
      if valid_size n
      then (if ltb latest_cache_size n
          then (inner_find symbol interval n, cache)
          else through_cache faults symbol interval n cache)
      else (err invalid_output_size, cache)
