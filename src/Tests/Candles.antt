-- ===== src/Tests/Candles.antt =====
-- Candles with natural numbers for prices.
use stock_backend.Prelude.{
  none, ◌≤◌, ◌&&◌, length, count_by, ℕ, ◌+◌, ◌*◌, ◌-◌, ◌/◌, ◌≡◌, ◌≢◌, refl, Bool, true, false, not,
  Option, some, List, [], ◌∷◌, map, keep, String, arith, ltb, ◌==◌, nat_eq, string_eq, max, find_by,
  Distinct, if◌then◌else◌,
}
use stock_backend.Database.{Result, ok, err}
use stock_backend.Candles.Candle.{Candle, Float64}
use stock_backend.Candles.Aggregation.{collect}
use stock_backend.Candles.Aggregation.Groups.{bucket_at, summary, of_key, collect-summary}
use stock_backend.Candles.Dedup.{candle_key, dedup_candles, same_key, dedup_candles-first}
use stock_backend.Candles.Ingest.{ActiveSymbol, IngestResult, Location, Turn, World, ingest_all}
use stock_backend.Candles.Ingest.Accounting.{
  has_failed, has_succeeded, ingest_all-accounts, ingest_all-le,
}
use stock_backend.Candles.Caching.Upsert.{ChangesOnly, never, upsert_batch, upsert_batch-coherent}
use stock_backend.Candles.Quotes.{
  Found, candles, failed, cut_off, get_quotes, BatchResult, Quote, QuoteFailure, has_two,
}
use stock_backend.Candles.Quotes.Partition.{get_quotes-partition}
use stock_backend.Candles.Caching.{
  Cache, Faults, find, inner_find, cache_key, safe_cache_key, corrupt, lookup,
  decode_cached_candles,
}
use stock_backend.Candles.Caching.Transparency.{AllCoherent, find-transparent}

abbrev pub naturals : Float64
naturals = record {
  Carrier = ℕ;
  less = ltb;
  zero_value = 0;
  is_zero = λ n. n == 0;
  minus = λ a b. a - b;
  percent_of = λ a b. a;
}

abbrev at_price : ℕ → ℕ → Candle ℕ
at_price t p = record {
  symbol_code = "AAPL";
  interval = "1day";
  time = t;
  timezone = "America/New_York";
  open_price = p;
  high = p + 2;
  low = p;
  close = p + 1;
  volume = 10;
}

abbrev week_of : ℕ → ℕ
week_of t = t / 7

abbrev week_start : ℕ → ℕ
week_start t = t / 7 * 7

abbrev days : List (Candle ℕ)
days = at_price 1 20 ∷ at_price 2 30 ∷ at_price 8 40 ∷ []

collect-summary_example :
    bucket_at naturals week_of week_start 0 (collect naturals week_of week_start [] days)
    ≡ summary naturals week_of week_start (keep (of_key naturals week_of week_start 0) days)
collect-summary_example = collect-summary naturals week_of week_start 0 days

abbrev decimal : ℕ → String
decimal n = if n == 0 then "0" else "1"

dedup_candles-first_example :
    Distinct (candle_key decimal) (dedup_candles decimal days)
    × ((k : String)
        → find_by (same_key decimal k) (dedup_candles decimal days)
          ≡ find_by (same_key decimal k) days)
dedup_candles-first_example = dedup_candles-first decimal days

abbrev fetched : String → ℕ → Found naturals
fetched code n = if code == "AAPL" then candles days else failed 3

never_cut_off : (code : String) (x : ℕ) → fetched code 2 ≢ cut_off x
never_cut_off code x e = ground arith

get_quotes-partition_example :
    (r : BatchResult naturals) × (get_quotes naturals fetched ("AAPL" ∷ "MSFT" ∷ []) 0 ≡ ok r)
    × (map (λ q. Quote.code q) r.quotes
        ≡ keep (λ c. has_two naturals (fetched c (max 0 2))) ("AAPL" ∷ "MSFT" ∷ []))
    × (map (λ x. QuoteFailure.code x) r.failures
        ≡ keep (λ c. not (has_two naturals (fetched c (max 0 2)))) ("AAPL" ∷ "MSFT" ∷ []))
get_quotes-partition_example =
    get_quotes-partition naturals fetched ("AAPL" ∷ "MSFT" ∷ []) 0 never_cut_off

-- Every symbol has the same three candles, so that all keys share them.
abbrev stored : String → String → Result ℕ (List (Candle ℕ))
stored symbol interval = ok days

abbrev all_zones : String → Bool
all_zones z = true

abbrev set_fails : Faults
set_fails = record { get_fails = false; del_fails = true; set_fails = true }

abbrev cached : Option (Cache ℕ)
cached = some (("candles:AAPL:1day", corrupt) ∷ [])

cached-AllCoherent : AllCoherent all_zones "candles" stored cached
unfolding lookup decode_cached_candles
cached-AllCoherent k v e cs symbol interval decodes key = absurd (ground arith)

find-transparent_example :
    (let s = find all_zones "candles" stored set_fails "AAPL" "1day" 2 cached in
      (s.0 ≡ inner_find all_zones "candles" stored "AAPL" "1day" 2)
      × AllCoherent all_zones "candles" stored s.1)
find-transparent_example =
    find-transparent all_zones "candles" stored set_fails "AAPL" "1day" 2 cached
      (λ s i s' i' e. refl) cached-AllCoherent

-- Two symbols with one key.
shared_key : cache_key "candles" "A B" "1day" ≡ cache_key "candles" "A_B" "1day"
unfolding cache_key safe_cache_key
shared_key = refl

-- One symbol in a known zone, one in none.
abbrev location : Location
location = record {
  week_key = λ t. if ltb t 7 then "w0" else "w1";
  week_start = week_start;
  is_monday = λ t. true;
  month_key = λ t. "m0";
  month_start = λ t. 0;
  is_first = λ t. false;
}

abbrev world : World naturals decimal
world = record {
  load_location = λ z. if z == "UTC" then ok location else err 1;
  get_time_series = λ code loc. ok days;
  upsert_batch = λ cs. none;
}

abbrev quiet : Turn
quiet = record {
  at_start = none;
  wait_if_needed = none;
  after_wait = none;
  after_fetch = none;
  at_end = none;
}

abbrev turns : List (ActiveSymbol × Turn)
turns =
    (record { code = "AAPL"; timezone = "UTC" }, quiet)
    ∷ (record { code = "XXXX"; timezone = "" }, quiet)
    ∷ []

abbrev tally : IngestResult
tally = record { total = 2; succeeded = 1; failed = 1 }

ingests : ingest_all naturals decimal world (ok turns) ≡ (tally, none)
unfolding ingest_all
ingests = refl

ingest_all-accounts_example :
    (tally.total ≡ length turns)
    × (tally.failed ≡ count_by (has_failed naturals decimal world) turns)
    × (tally.succeeded ≡ count_by (has_succeeded naturals decimal world) turns)
    × (tally.succeeded + tally.failed ≡ tally.total)
ingest_all-accounts_example = ingest_all-accounts naturals decimal world turns tally ingests

ingest_all-le_example :
    (let s = (ingest_all naturals decimal world (ok turns)).0 in
      (s.total ≡ length turns) × (s.succeeded + s.failed ≤ s.total))
ingest_all-le_example = ingest_all-le naturals decimal world turns

-- The rows of AAPL lose a candle.
abbrev restored_rows : String → String → Result ℕ (List (Candle ℕ))
restored_rows symbol interval = if symbol == "AAPL" && interval == "1day" then ok [] else ok days

only_aapl : ChangesOnly all_zones "candles" stored restored_rows days
only_aapl symbol interval h = ground (
  arith,
  string_eq.beq_iff symbol "AAPL",
  string_eq.beq_iff interval "1day",
  string_eq.beq_iff "AAPL" symbol,
  string_eq.beq_iff "1day" interval,
)

upsert_batch-coherent_example :
    AllCoherent all_zones "candles" restored_rows
      (upsert_batch "candles" never (λ cs. none) days cached).1
upsert_batch-coherent_example =
    upsert_batch-coherent all_zones "candles" stored restored_rows (λ cs. none) days cached refl
      only_aapl cached-AllCoherent
