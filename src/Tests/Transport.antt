-- ===== src/Tests/Transport.antt =====
-- Requests with a cookie, and a library that knows one token.
use stock_backend.Prelude.{
  ℕ, ◌-◌, ◌*◌, ◌^◌, List, All, ◌≡◌, refl, ◌≢◌, ◌↔◌, ◌⊎◌, true, false, none, some, [], ◌∷◌, String,
  arith, ◌==◌, if◌then◌else◌, string_eq,
}
use stock_backend.Transport.Request.{
  Request, rejected, passed, anonymous, cookie, bearer, find_cookie,
}
use stock_backend.Transport.Csrf.{protect, is_safe_method, cookie_name, protect-passed_iff}
use stock_backend.Transport.Jwt
use stock_backend.Transport.Jwt.{
  Claims, Token, Library, text, number, auth_required, extract_token, hmac,
}
use stock_backend.Transport.Jwt.Proofs.{Authenticates, auth_required-passed}
use stock_backend.Transport.Jwt.Chain.{cookie_request_needs_token}
use stock_backend.Transport.Jwt.Logout.{Logout}

abbrev claims : Claims
claims = record { sub = text "42"; jti = text "j1"; exp = number false 100 false }

abbrev token : Token
token = record { valid = true; claims = some claims }

-- The one token, as long as the key for HMAC is the secret.
abbrev library : Library
library = record {
  parse = λ key now t.
      if t == "good" then (elim (key hmac) [ none ↦ none | some k ↦ some token ]) else none;
  remaining = λ whole now. whole * 10 ^ 9 - now;
  kept = λ ttl. ttl;
}

abbrev post : Request
post = record {
  method = "POST";
  cookies = ("auth_token", "good") ∷ ("csrf_token", "c1") ∷ [];
  authorization = "Bearer other";
  csrf_header = "c1";
  user_id = none;
  auth_source = anonymous;
}

abbrev authenticated : Request
authenticated = record post { user_id = some 42; auth_source = cookie }

authenticates : auth_required library "secret" (some []) false 0 post ≡ passed authenticated
unfolding auth_required Jwt.key_for
authenticates = refl

protects : protect [] authenticated ≡ passed authenticated
unfolding protect find_cookie
protects = refl

protects_mismatch :
    protect [] (record authenticated { csrf_header = "c2" }) ≡ rejected 403 "csrf token mismatch"
unfolding protect find_cookie
protects_mismatch = refl

auth_required-passed_example :
    (user_id : ℕ) × Authenticates library "secret" (some []) false 0 post user_id
    × (authenticated ≡ record post { user_id = some user_id; auth_source = (extract_token post).1 })
auth_required-passed_example =
    auth_required-passed library "secret" (some []) false 0 post authenticated authenticates

abbrev limited_to : List String
limited_to = "auth_token" ∷ []

protect-passed_iff_example : (protect limited_to authenticated ≡ passed authenticated) ↔ (
    ((authenticated.method ≡ "GET")
      ⊎ (authenticated.method ≡ "HEAD")
      ⊎ (authenticated.method ≡ "OPTIONS"))
    ⊎ (authenticated.auth_source ≡ bearer)
    ⊎ ((limited_to ≢ [])
        × All
            (λ name. (v : String) → find_cookie name authenticated.cookies ≡ some v → v ≡ "")
            limited_to)
    ⊎ ((find_cookie cookie_name authenticated.cookies ≡ some authenticated.csrf_header)
        × (authenticated.csrf_header ≢ "")))
protect-passed_iff_example = protect-passed_iff limited_to authenticated

found_cookie : find_cookie "auth_token" post.cookies ≡ some "good"
unfolding find_cookie
found_cookie = refl

post_unsafe : is_safe_method post.method ≡ false
unfolding is_safe_method
post_unsafe = refl

abbrev good : String
good = "good"

good_full : good ≢ ""
good_full e = ground (arith, string_eq.beq_iff good "")

cookie_request_needs_token_example :
    (find_cookie cookie_name post.cookies ≡ some post.csrf_header) × (post.csrf_header ≢ "")
cookie_request_needs_token_example =
    cookie_request_needs_token library "secret" (some []) false 0 post authenticated "good"
      found_cookie good_full post_unsafe authenticates protects

-- Logouts between, with another token and with the same.
abbrev between : List Logout
between =
    record { request = record post { cookies = [] }; at = 6; fails = false }
    ∷ record { request = post; at = 6; fails = true }
    ∷ record { request = post; at = 7; fails = false }
    ∷ []
