-- ===== src/Transport/Request.antt =====
-- What the middleware reads of an HTTP request, the values that it puts into the request's context,
-- and the outcomes that it chooses from.
use stock_backend.Prelude.{
  ℕ, Option, none, some, List, [], ◌∷◌, String, ◌==◌, if◌then◌else◌, string_eq,
}

pub data AuthSource : Type 0 where
  anonymous cookie bearer : AuthSource

-- `cookies` in the order of the Cookie header; `authorization` and `csrf_header` are the values of
-- `Header.Get`, empty if the header is not there. `user_id` and `auth_source` are the context's values.
pub record Request : Type 0 where
  pub method : String
  pub cookies : List (String × String)
  pub authorization : String
  pub csrf_header : String
  pub user_id : Option ℕ
  pub auth_source : AuthSource

-- `r.Cookie(name)`: the first cookie of the name.
unfoldable pub find_cookie : String → List (String × String) → Option String
find_cookie name [] = none
find_cookie name ((n, v) ∷ cs) = if n == name then some v else find_cookie name cs

-- A middleware either answers with a status and a message, or hands the request on.
pub data Outcome : Type 0 where
  rejected : ℕ → String → Outcome
  passed : Request → Outcome
