-- ===== src/Candles/Ingest.antt =====
-- ingest.go: the daily candles of every active symbol are fetched, aggregated and stored, and the
-- outcomes counted. The market, the rate limiter, the store, the context and Go's calendar are
-- parameters.
pub mod Accounting
use stock_backend.Prelude.{
  ℕ, ◌+◌, Bool, Option, none, some, List, [], ◌∷◌, ◌++◌, map, String, length, string_eq,
}
use stock_backend.Database.{Result, ok, err}
use stock_backend.Candles.Candle.{Candle, Float64}
use stock_backend.Candles.Aggregation.{aggregate, trim_incomplete_first_bucket}
use stock_backend.Candles.Dedup.{dedup_candles}

pub record ActiveSymbol : Type 0 where
  pub code : String
  pub timezone : String

pub record IngestResult : Type 0 where
  pub total : ℕ
  pub succeeded : ℕ
  pub failed : ℕ

-- A location as the closures of aggregation.go use it: keys and starts of weeks and months.
pub record Location : Type 0 where
  pub week_key : ℕ → String
  pub week_start : ℕ → ℕ
  pub is_monday : ℕ → Bool
  pub month_key : ℕ → String
  pub month_start : ℕ → ℕ
  pub is_first : ℕ → Bool

-- What the context and the rate limiter answer in the turn of one symbol; `some` is an error.
pub record Turn : Type 0 where
  pub at_start : Option ℕ
  pub wait_if_needed : Option ℕ
  pub after_wait : Option ℕ
  pub after_fetch : Option ℕ
  pub at_end : Option ℕ

abbrev pub count : IngestResult → Option ℕ → IngestResult
count r (some e) = record r { failed = r.failed + 1 }
count r none = record r { succeeded = r.succeeded + 1 }

-- `if err != nil { return result, err }`
abbrev pub unless : Option ℕ → IngestResult → IngestResult × Option ℕ → IngestResult × Option ℕ
unless (some e) r rest = (r, some e)
unless none r rest = rest

module _ {P : Type 0} where
  abbrev pub relabel : String → String → Candle P → Candle P
  relabel code interval c = record c { symbol_code = code; interval = interval }

  abbrev pub labelled : String → String → List (Candle P) → List (Candle P)
  labelled code interval = map (relabel code interval)

module _ (f : Float64) (decimal : ℕ → String) where
  open f use {Carrier}

  -- The candles of all three intervals that go to the store.
  unfoldable pub batch : Location → String → List (Candle Carrier) → List (Candle Carrier)
  batch loc code fetched =
      let daily = dedup_candles decimal (labelled code "1day" fetched) in
      let weekly = labelled code "1week" (
        trim_incomplete_first_bucket (aggregate f loc.week_key loc.week_start daily) daily
          loc.is_monday) in
      let monthly = labelled code "1month" (
        trim_incomplete_first_bucket (aggregate f loc.month_key loc.month_start daily) daily
          loc.is_first) in
      dedup_candles decimal (daily ++ (weekly ++ monthly))

  pub record World : Type 0 where
    pub load_location : String → Result ℕ Location
    pub get_time_series : String → Location → Result ℕ (List (Candle Carrier))
    pub upsert_batch : List (Candle Carrier) → Option ℕ

  module _ (w : World) where
    open w use {load_location, get_time_series, upsert_batch}

    abbrev pub stored : Option ℕ → Location → String → List (Candle Carrier) → Option ℕ
    stored (some e) loc code fetched = some e
    stored none loc code fetched = upsert_batch (batch loc code fetched)

    abbrev pub fetched_candles :
        Option ℕ → Location → String → Result ℕ (List (Candle Carrier)) → Option ℕ
    fetched_candles cut loc code (err e) = some e
    fetched_candles cut loc code (ok cs) = stored cut loc code cs

    abbrev pub located : Option ℕ → String → Result ℕ Location → Option ℕ
    located cut code (err e) = some e
    located cut code (ok loc) = fetched_candles cut loc code (get_time_series code loc)

    -- The error of `ingestOne`, if there is one.
    unfoldable pub ingest_one : Turn → ActiveSymbol → Option ℕ
    unfolding batch
    ingest_one t s = located t.after_fetch s.code (load_location s.timezone)

    unfoldable pub ingest_loop : List (ActiveSymbol × Turn) → IngestResult → IngestResult × Option ℕ
    unfolding ingest_one
    ingest_loop [] r = (r, none)
    ingest_loop ((s, t) ∷ ss) r =
        let r' : IngestResult = count r (ingest_one t s) in
        let rest = ingest_loop ss r' in
        unless t.at_start r
          (unless t.wait_if_needed r (unless t.after_wait r (unless t.at_end r' rest)))

    -- The symbols each with what happens in their turn, or the error of `ListActiveSymbols`.
    unfoldable pub ingest_all : Result ℕ (List (ActiveSymbol × Turn)) → IngestResult × Option ℕ
    unfolding ingest_loop
    ingest_all (err e) = (record { total = 0; succeeded = 0; failed = 0 }, some e)
    ingest_all (ok ss) = ingest_loop ss (record { total = length ss; succeeded = 0; failed = 0 })
