-- ===== src/Candles/Candle.antt =====
-- candle.go, and what the package uses of float64: `Float64` is a parameter of the model, so that no
-- property rests on the arithmetic of prices. Times are nanoseconds since 1970.
use stock_backend.Prelude.{ℕ, Bool, String}

pub record Float64 : Type 1 where
  pub Carrier : Type 0
  pub less : Carrier → Carrier → Bool
  pub zero_value : Carrier
  pub is_zero : Carrier → Bool
  pub minus : Carrier → Carrier → Carrier
  pub percent_of : Carrier → Carrier → Carrier

-- `volume` is the bit pattern of an int64.
pub record Candle (P : Type 0) : Type 0 where
  pub symbol_code : String
  pub interval : String
  pub time : ℕ
  pub timezone : String
  pub open_price : P
  pub high : P
  pub low : P
  pub close : P
  pub volume : ℕ
