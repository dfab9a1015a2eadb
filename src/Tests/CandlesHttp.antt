-- ===== src/Tests/CandlesHttp.antt =====
-- Requests for candles and quotes on concrete data.
use stock_backend.Prelude.{
  ℕ, ◌≤◌, ◌≡◌, some, List, [], ◌∷◌, String, ltb, if◌then◌else◌, length, any, Distinct, pos,
  string_eq, ◌==◌, arith,
}
use stock_backend.Database.{Result, ok, err}
use stock_backend.Candles.Candle.{Candle}
use stock_backend.Candles.Caching.{max_output_size}
use stock_backend.CandlesHttp.Handler.{
  Texts, CandlesError, failed, dedup_codes, get_candles_handler,
}
use stock_backend.CandlesHttp.Checks.{dedup_codes_lem}
use stock_backend.CandlesHttp.Asked.{IsAsked, get_candles_handler-asked}
use stock_backend.Tests.Candles.{naturals}

abbrev asked_codes : List String
asked_codes = "AAPL" ∷ "7203.T" ∷ "AAPL" ∷ []

dedup_codes_lem_example :
    Distinct (λ s. s) (dedup_codes [] asked_codes)
    × ((s : String)
        → any (λ t. t == s) (dedup_codes [] asked_codes) ≡ any (λ t. t == s) asked_codes)
    × (length (dedup_codes [] asked_codes) ≤ length asked_codes)
dedup_codes_lem_example = dedup_codes_lem asked_codes

abbrev texts : Texts
texts = record {
  atoi = λ s. some (pos 200);
  split_commas = λ s. s ∷ [];
  format_date = λ t. "2025-01-06";
}

abbrev empty_find : String → String → ℕ → Result CandlesError (List (Candle ℕ))
empty_find code interval n = ok []

abbrev bounded_find : String → String → ℕ → Result CandlesError (List (Candle ℕ))
bounded_find code interval n = if ltb max_output_size n then err failed else ok []

same_in_bounds :
    (code interval : String) (n : ℕ)
    → IsAsked code interval n
    → empty_find code interval n ≡ bounded_find code interval n
same_in_bounds code interval n h = ground (arith, h.2.1)

get_candles_handler-asked_example :
    get_candles_handler texts naturals empty_find "AAPL" (("interval", "1week") ∷ [])
    ≡ get_candles_handler texts naturals bounded_find "AAPL" (("interval", "1week") ∷ [])
get_candles_handler-asked_example =
    get_candles_handler-asked texts naturals empty_find bounded_find same_in_bounds "AAPL"
      (("interval", "1week") ∷ [])
