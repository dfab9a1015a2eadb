-- ===== src/Candles/Quotes/Partition.antt =====
-- The two lists of a batch of `GetQuotes` (quotes.go).
use stock_backend.Prelude.{
  ℕ, ◌≡◌, ◌≢◌, refl, not, List, [], ◌∷◌, map, String, arith, if◌then◌else◌, keep, max,
}
use stock_backend.Database.{Result, ok, err}
use stock_backend.Candles.Candle.{Float64}
use stock_backend.Candles.Quotes.{
  Quote, QuoteFailure, BatchResult, Found, candles, failed, cut_off, Attempt, has_two, attempt,
  attempts, both, sort_attempt, sort_attempts, get_quotes, build_quote,
}

module _ (f : Float64) where
  both-ok :
      (ra : Result ℕ (Attempt f)) (rr : Result ℕ (List (Attempt f))) (all : List (Attempt f))
      → both f ra rr ≡ ok all
      → (a : Attempt f) × (rest : List (Attempt f)) × (ra ≡ ok a)
        × (rr ≡ ok rest)
        × (all ≡ a ∷ rest)
  both-ok (ok a) (ok rest) all e = (a, rest, refl, refl, ground arith)
  both-ok (ok a) (err x) all e = absurd (ground arith)
  both-ok (err x) rr all e = absurd (ground arith)

  abbrev quote_codes : BatchResult f → List String
  quote_codes r = map (λ q. Quote.code q) r.quotes

  abbrev failure_codes : BatchResult f → List String
  failure_codes r = map (λ x. QuoteFailure.code x) r.failures

  -- One attempt puts its code in front of one of the two lists.
  attempt_codes :
      (code : String) (bars : ℕ) (found : Found f) (a : Attempt f) (r : BatchResult f)
      → attempt f code bars found ≡ ok a
      → (quote_codes (sort_attempt f a r)
          ≡ (if has_two f found then code ∷ quote_codes r else quote_codes r))
        × (failure_codes (sort_attempt f a r)
            ≡ (if not (has_two f found) then code ∷ failure_codes r else failure_codes r))
  unfolding attempt build_quote
  attempt_codes code bars (candles []) a r e = ground arith
  attempt_codes code bars (candles (c ∷ [])) a r e = ground arith
  attempt_codes code bars (candles (c ∷ d ∷ cs)) a r e = ground arith
  attempt_codes code bars (failed cause) a r e = ground arith
  attempt_codes code bars (cut_off x) a r e = absurd (ground arith)

  attempts_codes :
      (find : String → Found f) (bars : ℕ) (codes : List String) (all : List (Attempt f))
      → attempts f find bars codes ≡ ok all
      → (quote_codes (sort_attempts f all) ≡ keep (λ c. has_two f (find c)) codes)
        × (failure_codes (sort_attempts f all) ≡ keep (λ c. not (has_two f (find c))) codes)
  unfolding attempts sort_attempts
  attempts_codes find bars [] all e = ground arith
  attempts_codes find bars (code ∷ codes) all e =
      let (a, rest, ea, er, split) =
        both-ok (attempt f code bars (find code)) (attempts f find bars codes) all e in
      let ih = attempts_codes find bars codes rest er in
      let one = attempt_codes code bars (find code) a (sort_attempts f rest) ea in ground arith

  attempt-total :
      (code : String) (bars : ℕ) (found : Found f)
      → ((x : ℕ) → found ≢ cut_off x)
      → (a : Attempt f) × (attempt f code bars found ≡ ok a)
  unfolding attempt
  attempt-total code bars (candles cs) h = (_, refl)
  attempt-total code bars (failed cause) h = (_, refl)
  attempt-total code bars (cut_off x) h = absurd (h x refl)

  attempts-total :
      (find : String → Found f) (bars : ℕ) (codes : List String)
      → ((code : String) (x : ℕ) → find code ≢ cut_off x)
      → (all : List (Attempt f)) × (attempts f find bars codes ≡ ok all)
  unfolding attempts
  attempts-total find bars [] h = ([], refl)
  attempts-total find bars (code ∷ codes) h =
      let (a, ea) = attempt-total code bars (find code) (h code) in
      let (all, er) = attempts-total find bars codes h in (a ∷ all, rw (ea, er) refl)

  -- Where the context cuts no fetch off there is a result, and each symbol of the request is in one of
  -- its two lists: with a quote if two candles at least were fetched, as a failure otherwise. Both
  -- lists keep the order of the request.
  pub get_quotes-partition :
      (find : String → ℕ → Found f) (codes : List String) (bars : ℕ)
      → ((code : String) (x : ℕ) → find code (max bars 2) ≢ cut_off x)
      → (r : BatchResult f) × (get_quotes f find codes bars ≡ ok r)
        × (map (λ q. Quote.code q) r.quotes ≡ keep (λ c. has_two f (find c (max bars 2))) codes)
        × (map (λ x. QuoteFailure.code x) r.failures
            ≡ keep (λ c. not (has_two f (find c (max bars 2)))) codes)
  unfolding get_quotes
  get_quotes-partition find codes bars h =
      let (all, e) = attempts-total (λ code. find code (max bars 2)) bars codes h in
      let split = attempts_codes (λ code. find code (max bars 2)) bars codes all e in
      (sort_attempts f all, rw e refl, split.0, split.1)
