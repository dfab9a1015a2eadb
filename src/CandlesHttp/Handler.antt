-- ===== src/CandlesHttp/Handler.antt =====
-- The handlers of internal/feature/candles/candleshttp/handler.go. strconv.Atoi, strings.Split at the
-- commas and the format of a date are Go's: the fields of `Texts`. What the use case finds is an
-- argument.
use stock_backend.Prelude.{
  ℕ, Bool, not, ◌||◌, Option, none, some, List, [], ◌∷◌, map, String, ltb, ◌==◌, if◌then◌else◌,
  length, any, string_eq, ℤ, pos, negsuc,
}
use stock_backend.Database.{Result, ok, err}
use stock_backend.Candles.Candle.{Candle, Float64}
use stock_backend.Candles.Quotes.{
  FailureReason, QuoteFailure, Quote, BatchResult, Found, get_quotes,
}
use stock_backend.Candles.Caching.{max_output_size}
use stock_backend.WatchlistHttp.Handler.{symbol_code_pattern}

pub record Texts : Type 0 where
  pub atoi : String → Option ℤ
  pub split_commas : String → List String
  pub format_date : ℕ → String

abbrev pub max_quote_codes : ℕ
max_quote_codes = 50

abbrev pub max_quote_bars : ℕ
max_quote_bars = 500

-- The parameters of a query, in their order.
unfoldable pub query_or_default : String → String → List (String × String) → String
query_or_default key def [] = def
query_or_default key def ((k, v) ∷ query) = if k == key then v else query_or_default key def query

unfoldable pub is_valid_interval : String → Bool
is_valid_interval interval = interval == "1day" || interval == "1week" || interval == "1month"

-- `dedupCodes` with the codes seen.
unfoldable pub dedup_codes : List String → List String → List String
dedup_codes seen [] = []
dedup_codes seen (code ∷ codes) =
    let kept = code ∷ dedup_codes (code ∷ seen) codes in
    let skipped = dedup_codes seen codes in if any (λ s. s == code) seen then skipped else kept

-- A number from `low` to `high`.
unfoldable pub in_range : ℕ → ℕ → ℤ → Option ℕ
in_range low high (negsuc n) = none
in_range low high (pos n) = if ltb n low || ltb high n then none else some n

pub data CandlesError : Type 0 where
  invalid_output_size failed : CandlesError

module _ (texts : Texts) (f : Float64) where
  open f use {Carrier}

  pub record CandleResponse : Type 0 where
    pub time : String
    pub open_price : Carrier
    pub high : Carrier
    pub low : Carrier
    pub close : Carrier
    pub volume : ℕ

  pub record QuoteResponse : Type 0 where
    pub code : String
    pub time : String
    pub close : Carrier
    pub prev_close : Carrier
    pub change : Carrier
    pub change_percent : Carrier
    pub closes : Option (List Carrier)

  pub data Body : Type 0 where
    error : String → Body
    candles : String → List CandleResponse → Body
    quotes : List QuoteResponse → List (String × FailureReason) → Body

  pub record Response : Type 0 where
    pub status : ℕ
    pub body : Body

  abbrev pub respond : ℕ → Body → Response
  respond status body = record { status = status; body = body }

  abbrev pub candle_response : Candle Carrier → CandleResponse
  candle_response x = record {
    time = texts.format_date x.time;
    open_price = x.open_price;
    high = x.high;
    low = x.low;
    close = x.close;
    volume = x.volume;
  }

  unfoldable pub candles_answer : String → Result CandlesError (List (Candle Carrier)) → Response
  candles_answer code (ok result) = respond 200 (candles code (map candle_response result))
  candles_answer code (err invalid_output_size) =
      respond 400 (error "outputsize must be between 1 and 5000")
  candles_answer code (err failed) = respond 500 (error "internal server error")

  module _ (find : String → String → ℕ → Result CandlesError (List (Candle Carrier))) where
    abbrev pub sized : String → String → Option ℕ → Response
    sized code interval none = respond 400 (error "outputsize must be between 1 and 5000")
    sized code interval (some n) = candles_answer code (find code interval n)

    abbrev pub with_output_size : String → String → Option ℤ → Response
    with_output_size code interval none = respond 400 (error "outputsize must be an integer")
    with_output_size code interval (some n) = sized code interval (in_range 1 max_output_size n)

    -- `GetCandlesHandler`
    unfoldable pub get_candles_handler : String → List (String × String) → Response
    unfolding candles_answer in_range query_or_default is_valid_interval
    get_candles_handler code query =
        if not (symbol_code_pattern code)
        then respond 400 (error "invalid symbol code")
        else if not (is_valid_interval (query_or_default "interval" "1day" query))
        then respond 400 (error "unsupported interval")
        else with_output_size code (query_or_default "interval" "1day" query)
            (texts.atoi (query_or_default "outputsize" "200" query))

  -- The closes are there only where bars were asked for.
  abbrev pub quote_response : ℕ → Quote f → QuoteResponse
  quote_response bars q = record {
    code = q.code;
    time = texts.format_date q.time;
    close = q.close;
    prev_close = q.prev_close;
    change = q.change;
    change_percent = q.change_percent;
    closes = if ltb 0 bars then some q.closes else none;
  }

  abbrev pub failure_response : QuoteFailure → String × FailureReason
  failure_response failure = (failure.code, failure.reason)

  unfoldable pub quotes_answer : ℕ → Result ℕ (BatchResult f) → Response
  quotes_answer bars (err e) = respond 500 (error "internal server error")
  quotes_answer bars (ok result) =
      respond 200
        (quotes (map (quote_response bars) result.quotes) (map failure_response result.failures))

  module _ (find : String → String → ℕ → Found f) where
    abbrev pub with_range : List String → String → Option ℕ → Response
    with_range codes interval none = respond 400 (error "bars out of range")
    with_range codes interval (some bars) =
        quotes_answer bars (get_quotes f (find interval) codes bars)

    abbrev pub with_bars : List String → String → Option ℤ → Response
    with_bars codes interval none = respond 400 (error "bars must be an integer")
    with_bars codes interval (some n) = with_range codes interval (in_range 0 max_quote_bars n)

    unfoldable pub quotes_of : List String → List (String × String) → Response
    unfolding quotes_answer in_range query_or_default is_valid_interval dedup_codes
    quotes_of raw_codes query =
        if ltb max_quote_codes (length raw_codes)
        then respond 400 (error "too many codes")
        else if any (λ s. not (symbol_code_pattern s)) raw_codes
        then respond 400 (error "invalid symbol code")
        else if not (is_valid_interval (query_or_default "interval" "1day" query))
        then respond 400 (error "unsupported interval")
        else with_bars (dedup_codes [] raw_codes) (query_or_default "interval" "1day" query)
            (texts.atoi (query_or_default "bars" "0" query))

    -- `GetQuotesHandler`
    unfoldable pub get_quotes_handler : List (String × String) → Response
    unfolding quotes_of query_or_default
    get_quotes_handler query =
        if query_or_default "codes" "" query == ""
        then respond 400 (error "codes is required")
        else quotes_of (texts.split_commas (query_or_default "codes" "" query)) query
