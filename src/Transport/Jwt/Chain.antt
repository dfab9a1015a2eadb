-- ===== src/Transport/Jwt/Chain.antt =====
-- The middlewares in the order in which the router chains them.
use stock_backend.Prelude.{
  ℕ, ◌≡◌, ◌∙◌, ap, subst, ◌≢◌, inl, inr, Bool, false, some, [], String, arith, string_eq,
}
use stock_backend.Transport.Request.{Request, passed, AuthSource, cookie, find_cookie}
use stock_backend.Transport.Csrf.{
  protect, protect-passed_tests, is_safe_method, out_of_scope, cookie_name,
}
use stock_backend.Transport.Jwt.{Library, Blacklist, extract_token, auth_required}
use stock_backend.Transport.Jwt.Proofs.{auth_required-passed}

cookie-extract_token :
    (r : Request) (v : String)
    → find_cookie "auth_token" r.cookies ≡ some v
    → v ≢ ""
    → extract_token r ≡ (v, cookie)
unfolding extract_token
cookie-extract_token r v found full = rw found (ground (arith, string_eq.beq_iff v ""))

-- A browser's request that changes state: it carries the cookie `auth_token`, so whatever its
-- Authorization header says, it passes authentication and then the CSRF check only with the CSRF
-- cookie and the same value, not empty, in the header.
pub cookie_request_needs_token :
    (l : Library) (secret : String) (b : Blacklist) (fails : Bool) (now : ℕ) (r r' : Request)
    (v : String)
    → find_cookie "auth_token" r.cookies ≡ some v
    → v ≢ ""
    → is_safe_method r.method ≡ false
    → auth_required l secret b fails now r ≡ passed r'
    → protect [] r' ≡ passed r'
    → (find_cookie cookie_name r.cookies ≡ some r.csrf_header) × (r.csrf_header ≢ "")
unfolding out_of_scope
cookie_request_needs_token l secret b fails now r r' v found full unsafe auth csrf =
    let shown = auth_required-passed l secret b fails now r r' auth in
    let source : r'.auth_source ≡ cookie =
      ap (λ (q : Request). q.auth_source) shown.2
      ∙ ap (λ (p : String × AuthSource). p.1) (cookie-extract_token r v found full) in
    elim ((protect-passed_tests [] r').0 csrf) [
      | inl safe ↦ absurd (ground (arith, ap (λ (q : Request). q.method) shown.2))
      | inr (inl is_bearer) ↦ absurd (ground arith)
      | inr (inr (inl scope)) ↦ absurd (ground arith)
      | inr (inr (inr same)) ↦
          subst
            (λ (q : Request).
              (find_cookie cookie_name q.cookies ≡ some q.csrf_header) × (q.csrf_header ≢ ""))
            shown.2 same
    ]
