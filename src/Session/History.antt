-- ===== src/Session/History.antt =====
-- Requests to the session service in the order in which their transactions commit. The advisory lock
-- of a family puts the transactions on its rows in such an order; each request has its own random
-- tokens, its own time and its own failures of the driver.
pub mod Rows
pub mod Steps
pub mod Valid
pub mod Once
use stock_backend.Prelude.{ℕ, Option, List, [], ◌∷◌, String}
use stock_backend.Database.{Conn}
use stock_backend.Session.Store.{Db}
use stock_backend.Session.Service
use stock_backend.Session.Service.{Deps, Draw}

abbrev pub connect : Db → (ℕ → Option ℕ) → Conn Db
connect t fault = record { durable = t; working = t; calls = 0; fault = fault }

pub data Request : Type 0 where
  refreshes : Draw → ℕ → String → (ℕ → Option ℕ) → Request
  issues : Draw → ℕ → ℕ → String → (ℕ → Option ℕ) → Request
  logs_out : ℕ → String → (ℕ → Option ℕ) → Request
  cleans : ℕ → (ℕ → Option ℕ) → Request

unfoldable pub step : Deps → Db → Request → Db
step d t (refreshes draw now token fault) =
    (Service.refresh d draw now token (connect t fault)).1.durable
step d t (issues draw now user_id email fault) =
    (Service.issue d draw now user_id email (connect t fault)).1.durable
step d t (logs_out now token fault) = (Service.revoke d now token (connect t fault)).1.durable
step d t (cleans now fault) = (Service.cleanup_expired now (connect t fault)).1.durable

unfoldable pub run : Deps → Db → List Request → Db
run d t [] = t
run d t (r ∷ rs) = run d (step d t r) rs
