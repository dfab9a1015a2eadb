-- ===== src/CandlesHttp/Asked.antt =====
-- What the handler of the candles asks the use case for.
use stock_backend.Prelude.{
  ℕ, ◌≤◌, ◌≡◌, refl, ap, inl, inr, true, ◌||◌, Option, none, some, List, String, ltb, Bool-cases, ℤ,
  pos, negsuc, arith,
}
use stock_backend.Database.{Result}
use stock_backend.Candles.Candle.{Candle, Float64}
use stock_backend.WatchlistHttp.Handler.{symbol_code_pattern}
use stock_backend.Candles.Caching.{max_output_size}
use stock_backend.CandlesHttp.Handler.{
  Texts, CandlesError, is_valid_interval, in_range, query_or_default, candles_answer,
  with_output_size, get_candles_handler,
}

-- A call of the use case that the handler may make: the code has the form of one, the interval is one
-- of the three, and the size is within its bounds.
abbrev pub IsAsked : String → String → ℕ → Type 0
IsAsked code interval n =
    (symbol_code_pattern code ≡ true)
    × (is_valid_interval interval ≡ true)
    × ((1 ≤ n) × (n ≤ max_output_size))

module _ (texts : Texts) (f : Float64)
    (find find' : String → String → ℕ → Result CandlesError (List (Candle f.Carrier)))
    (same : (code interval : String) (n : ℕ)
      → IsAsked code interval n
      → find code interval n ≡ find' code interval n) where
  with_output_size-asked :
      (code interval : String) (size : Option ℤ)
      → symbol_code_pattern code ≡ true
      → is_valid_interval interval ≡ true
      → with_output_size texts f find code interval size
        ≡ with_output_size texts f find' code interval size
  unfolding in_range
  with_output_size-asked code interval none hc hi = refl
  with_output_size-asked code interval (some (negsuc n)) hc hi = refl
  with_output_size-asked code interval (some (pos n)) hc hi =
      elim (Bool-cases (ltb n 1 || ltb max_output_size n)) [
        | inl e ↦ rw e refl
        | inr e ↦ rw e (
            ap (candles_answer texts f code)
              (same code interval n (hc, hi, (ground arith, ground arith))))
      ]

  -- The handler asks the use case only with a valid code, a valid interval and a size within its
  -- bounds: use cases that agree on these answer a request alike.
  pub get_candles_handler-asked :
      (code : String) (query : List (String × String))
      → get_candles_handler texts f find code query ≡ get_candles_handler texts f find' code query
  unfolding get_candles_handler
  get_candles_handler-asked code query = elim (Bool-cases (symbol_code_pattern code)) [
    | inl hc ↦ elim (Bool-cases (is_valid_interval (query_or_default "interval" "1day" query))) [
      | inl hi ↦
          rw (hc, hi)
            (with_output_size-asked code (query_or_default "interval" "1day" query)
              (texts.atoi (query_or_default "outputsize" "200" query)) hc hi)
      | inr hi ↦ rw (hc, hi) refl
    ]
    | inr hc ↦ rw hc refl
  ]
