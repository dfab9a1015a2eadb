-- ===== src/Candles/Quotes.antt =====
-- quotes.go: the summaries of several symbols. What `Repository.Find` returns for each symbol is the
-- argument `find`; it stands for the calls of one batch, none of which the context has cut off.
pub mod Partition
use stock_backend.Prelude.{
  ℕ, suc, ◌+◌, ◌-◌, ◌≤◌, ◌≡◌, refl, ap, Bool, true, false, Option, none, some, List, [], ◌∷◌, ◌++◌,
  map, String, arith, ltb, leb, ◌==◌, if◌then◌else◌, length, keep, not, take, max, min, nat_eq,
}
use mathlib.Core.List.{reverse}
use stock_backend.Database.{Result, ok, err}
use stock_backend.Candles.Candle.{Candle, Float64}

pub data FailureReason : Type 0 where
  fetch_failed insufficient_data : FailureReason

pub record QuoteFailure : Type 0 where
  pub code : String
  pub reason : FailureReason
  pub cause : Option ℕ

module _ (f : Float64) where
  open f use {Carrier, zero_value, is_zero, minus, percent_of}

  pub record Quote : Type 0 where
    pub code : String
    pub time : ℕ
    pub close : Carrier
    pub prev_close : Carrier
    pub change : Carrier
    pub change_percent : Carrier
    pub closes : List Carrier

  abbrev pub close_of : Candle Carrier → Carrier
  close_of c = c.close

  -- `closes[n-1-i] = cs[i].Close` for the first n: oldest first.
  abbrev pub spark_closes : ℕ → List (Candle Carrier) → List Carrier
  spark_closes bars cs =
      if ltb 0 bars then reverse (map close_of (take (min bars (length cs)) cs)) else []

  unfoldable pub build_quote : String → List (Candle Carrier) → ℕ → Option Quote
  build_quote code (latest ∷ previous ∷ cs) bars = some (record {
    code = code;
    time = latest.time;
    close = latest.close;
    prev_close = previous.close;
    change = minus latest.close previous.close;
    change_percent =
        if is_zero previous.close
        then zero_value
        else percent_of (minus latest.close previous.close) previous.close;
    closes = spark_closes bars (latest ∷ previous ∷ cs);
  })
  build_quote code _ bars = none

  -- What `Repository.Find` gives one goroutine: candles, an error, or an error with the context done.
  pub data Found : Type 0 where
    candles : List (Candle Carrier) → Found
    failed : ℕ → Found
    cut_off : ℕ → Found

  pub data Attempt : Type 0 where
    quoted : Quote → Attempt
    missed : QuoteFailure → Attempt

  abbrev pub attempt_of : String → Option Quote → Attempt
  attempt_of code none = missed (record { code = code; reason = insufficient_data; cause = none })
  attempt_of code (some q) = quoted q

  -- The goroutine of one code.
  unfoldable pub attempt : String → ℕ → Found → Result ℕ Attempt
  unfolding build_quote
  attempt code bars (candles cs) = ok (attempt_of code (build_quote code cs bars))
  attempt code bars (failed cause) =
      ok (missed (record { code = code; reason = fetch_failed; cause = some cause }))
  attempt code bars (cut_off e) = err e

  abbrev pub both : Result ℕ Attempt → Result ℕ (List Attempt) → Result ℕ (List Attempt)
  both (ok a) (ok as') = ok (a ∷ as')
  both (ok a) (err e) = err e
  both (err e) rest = err e

  -- `g.Wait`: the attempts in the order of the codes, or the error of one that the context cut off.
  unfoldable pub attempts : (String → Found) → ℕ → List String → Result ℕ (List Attempt)
  unfolding attempt
  attempts find bars [] = ok []
  attempts find bars (code ∷ codes) =
      both (attempt code bars (find code)) (attempts find bars codes)

  pub record BatchResult : Type 0 where
    pub quotes : List Quote
    pub failures : List QuoteFailure

  abbrev pub sort_attempt : Attempt → BatchResult → BatchResult
  sort_attempt (quoted q) r = record r { quotes = q ∷ r.quotes }
  sort_attempt (missed x) r = record r { failures = x ∷ r.failures }

  unfoldable pub sort_attempts : List Attempt → BatchResult
  sort_attempts [] = record { quotes = []; failures = [] }
  sort_attempts (a ∷ as') = sort_attempt a (sort_attempts as')

  abbrev pub sorted_result : Result ℕ (List Attempt) → Result ℕ BatchResult
  sorted_result (ok as') = ok (sort_attempts as')
  sorted_result (err e) = err e

  -- `GetQuotes`; `find` is asked for at least two candles.
  unfoldable pub get_quotes : (String → ℕ → Found) → List String → ℕ → Result ℕ BatchResult
  unfolding attempts sort_attempts
  get_quotes find codes bars = sorted_result (attempts (λ code. find code (max bars 2)) bars codes)

  -- A symbol has a quote if it was fetched with two candles at least.
  abbrev pub has_two : Found → Bool
  has_two (candles (c ∷ d ∷ cs)) = true
  has_two _ = false
