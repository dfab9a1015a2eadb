-- ===== src/Candles/Aggregation.antt =====
-- aggregation.go: daily candles into weekly and monthly ones. The key and the start of a bucket
-- (`weekKeyFn`, `monthStartFn` and the like) come from Go's calendar and the exchange's zone: they are
-- the arguments `key` and `start`. The map and `keyOrder` are one list of buckets in order of their
-- first candle.
pub mod Groups
use stock_backend.Prelude.{
  ℕ, ◌+◌, ◌%◌, ◌^◌, Bool, true, false, Option, none, some, List, [], ◌∷◌, map, ltb, leb, ◌==◌, Eq,
  if◌then◌else◌, String,
}
use stock_backend.Candles.Candle.{Candle, Float64}

-- int64 addition on bit patterns.
abbrev pub add64 : ℕ → ℕ → ℕ
add64 a b = (a + b) % 2 ^ 64

pub record Bucket (P : Type 0) : Type 0 where
  pub open_price : P
  pub high : P
  pub low : P
  pub close : P
  pub volume : ℕ
  pub time : ℕ

module _ {P : Type 0} where
  -- Sorting by time. `slices.SortFunc` leaves the order of candles of one time open; here they keep it.
  abbrev pub insert_by_time : Candle P → List (Candle P) → List (Candle P)
  insert_by_time c [] = c ∷ []
  insert_by_time c (d ∷ ds) =
      let rest = d ∷ insert_by_time c ds in if leb c.time d.time then c ∷ d ∷ ds else rest

  unfoldable pub sort_by_time : List (Candle P) → List (Candle P)
  sort_by_time [] = []
  sort_by_time (c ∷ cs) = insert_by_time c (sort_by_time cs)

module _ (f : Float64) {K : Type 0} ⦃e : Eq K⦄ (key : ℕ → K) (start : ℕ → ℕ) where
  open f use {Carrier, less}

  unfoldable pub new_bucket : Candle Carrier → Bucket Carrier
  new_bucket c = record {
    open_price = c.open_price;
    high = c.high;
    low = c.low;
    close = c.close;
    volume = c.volume;
    time = start c.time;
  }

  unfoldable pub merge : Bucket Carrier → Candle Carrier → Bucket Carrier
  merge b c = record b {
    high = if less b.high c.high then c.high else b.high;
    low = if less c.low b.low then c.low else b.low;
    close = c.close;
    volume = add64 b.volume c.volume;
  }

  -- The body of the loop.
  unfoldable pub add_candle : List (K × Bucket Carrier) → Candle Carrier → List (K × Bucket Carrier)
  add_candle [] c = (key c.time, new_bucket c) ∷ []
  add_candle ((k, b) ∷ bs) c =
      if k == key c.time then (k, merge b c) ∷ bs else (k, b) ∷ add_candle bs c

  unfoldable pub collect :
      List (K × Bucket Carrier) → List (Candle Carrier) → List (K × Bucket Carrier)
  unfolding add_candle
  collect bs [] = bs
  collect bs (c ∷ cs) = collect (add_candle bs c) cs

  unfoldable pub to_candle : K × Bucket Carrier → Candle Carrier
  to_candle (k, b) = record {
    symbol_code = "";
    interval = "";
    time = b.time;
    timezone = "";
    open_price = b.open_price;
    high = b.high;
    low = b.low;
    close = b.close;
    volume = b.volume;
  }

  unfoldable pub aggregate : List (Candle Carrier) → List (Candle Carrier)
  unfolding collect sort_by_time to_candle
  aggregate [] = []
  aggregate (c ∷ cs) = map to_candle (collect [] (sort_by_time (c ∷ cs)))

module _ {P : Type 0} where
  abbrev pub oldest : ℕ → List (Candle P) → ℕ
  oldest t [] = t
  oldest t (c ∷ cs) = oldest (if ltb c.time t then c.time else t) cs

  abbrev pub drop_first : Bool → List (Candle P) → List (Candle P)
  drop_first true (c ∷ cs) = cs
  drop_first _ cs = cs

  -- `trimIncompleteFirstBucket`
  unfoldable pub trim_incomplete_first_bucket :
      List (Candle P) → List (Candle P) → (ℕ → Bool) → List (Candle P)
  trim_incomplete_first_bucket result [] is_start = result
  trim_incomplete_first_bucket result (c ∷ cs) is_start =
      if is_start (oldest c.time cs) then result else drop_first true result
