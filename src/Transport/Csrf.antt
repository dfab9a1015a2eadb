-- ===== src/Transport/Csrf.antt =====
-- internal/transport/csrf/middleware.go: the double-submit cookie.
use stock_backend.Prelude.{
  ◌≡◌, refl, ◌≢◌, ◌⊎◌, inl, inr, ◌↔◌, All, Bool, true, false, not, ◌||◌, Option, none, some, List,
  [], ◌∷◌, String, arith, ◌==◌, if◌then◌else◌, string_eq,
}
use stock_backend.Transport.Request.{
  Request, Outcome, rejected, passed, AuthSource, anonymous, cookie, bearer, find_cookie,
}

abbrev pub cookie_name : String
cookie_name = "csrf_token"

unfoldable pub is_safe_method : String → Bool
is_safe_method m = m == "GET" || m == "HEAD" || m == "OPTIONS"

abbrev pub is_bearer : AuthSource → Bool
is_bearer bearer = true
is_bearer _ = false

-- A cookie that is there and not empty.
abbrev pub has_value : Option String → Bool
has_value none = false
has_value (some v) = not (v == "")

unfoldable pub has_any_cookie : Request → List String → Bool
has_any_cookie r [] = false
has_any_cookie r (name ∷ names) = has_value (find_cookie name r.cookies) || has_any_cookie r names

-- `len(cookieNames) > 0 && !hasAnyCookie(r, cookieNames)`
unfoldable pub out_of_scope : List String → Request → Bool
unfolding has_any_cookie
out_of_scope [] r = false
out_of_scope (name ∷ names) r = not (has_any_cookie r (name ∷ names))

-- Equal and not empty; the comparison in constant time has the result of a comparison.
unfoldable pub check_tokens : Option String → String → Request → Outcome
check_tokens none header r = rejected 403 "missing csrf token"
check_tokens (some v) header r =
    if v == ""
    then rejected 403 "missing csrf token"
    else if header == "" || not (header == v)
    then rejected 403 "csrf token mismatch"
    else passed r

unfoldable pub protect : List String → Request → Outcome
unfolding is_safe_method out_of_scope check_tokens
protect cookie_names r =
    if is_safe_method r.method
    then passed r
    else if is_bearer r.auth_source
    then passed r
    else if out_of_scope cookie_names r
    then passed r
    else check_tokens (find_cookie cookie_name r.cookies) r.csrf_header r

check_tokens-passed :
    (c : Option String) (header : String) (r : Request)
    → check_tokens c header r ≡ passed r
    → (c ≡ some header) × (header ≢ "")
unfolding check_tokens
check_tokens-passed none header r e = absurd (ground arith)
check_tokens-passed (some v) header r e =
    ground (arith, string_eq.beq_iff header v, string_eq.beq_iff header "")

check_tokens_match :
    (header : String) (r : Request) → header ≢ "" → check_tokens (some header) header r ≡ passed r
unfolding check_tokens
check_tokens_match header r full =
    ground (arith, string_eq.beq_iff header header, string_eq.beq_iff header "")

is_bearer_iff : (s : AuthSource) → (is_bearer s ≡ true) ↔ (s ≡ bearer)
is_bearer_iff anonymous = (λ h. ground arith, λ h. ground arith)
is_bearer_iff cookie = (λ h. ground arith, λ h. ground arith)
is_bearer_iff bearer = (λ h. refl, λ h. refl)

is_safe_method_iff :
    (m : String) → (is_safe_method m ≡ true) ↔ ((m ≡ "GET") ⊎ (m ≡ "HEAD") ⊎ (m ≡ "OPTIONS"))
unfolding is_safe_method
is_safe_method_iff m = (
  λ h.
      ground (
        arith,
        string_eq.beq_iff m "GET",
        string_eq.beq_iff m "HEAD",
        string_eq.beq_iff m "OPTIONS",
      ),
  λ h.
      ground (
        arith,
        string_eq.beq_iff m "GET",
        string_eq.beq_iff m "HEAD",
        string_eq.beq_iff m "OPTIONS",
      ),
)

-- None of the cookies is there with a value.
abbrev pub NoValue : Request → List String → Type 0
NoValue r names = All (λ name. (v : String) → find_cookie name r.cookies ≡ some v → v ≡ "") names

has_value_iff : (o : Option String) → (has_value o ≡ false) ↔ ((v : String) → o ≡ some v → v ≡ "")
has_value_iff none = (λ h v e. absurd (ground arith), λ h. refl)
has_value_iff (some v) = (
  λ h w e. ground (arith, string_eq.beq_iff v ""),
  λ h. ground (arith, string_eq.beq_iff v "", h v refl),
)

has_any_cookie_iff :
    (r : Request) (names : List String) → (has_any_cookie r names ≡ false) ↔ NoValue r names
unfolding has_any_cookie
has_any_cookie_iff r [] = (λ h. tt, λ h. refl)
has_any_cookie_iff r (name ∷ names) =
    let one = has_value_iff (find_cookie name r.cookies) in
    let rest = has_any_cookie_iff r names in
    (λ h. (one.0 (ground arith), rest.0 (ground arith)), λ h. ground (arith, one.1 h.0, rest.1 h.1))

out_of_scope_iff :
    (names : List String) (r : Request)
    → (out_of_scope names r ≡ true) ↔ ((names ≢ []) × NoValue r names)
unfolding out_of_scope
out_of_scope_iff [] r = (λ h. absurd (ground arith), λ h. absurd (h.0 refl))
out_of_scope_iff (name ∷ names) r =
    let any_one = has_any_cookie_iff r (name ∷ names) in
    (λ h. (λ e. ground arith, any_one.0 (ground arith)), λ h. ground (arith, any_one.1 h.1))

pub protect-passed_tests :
    (cookie_names : List String) (r : Request)
    → (protect cookie_names r ≡ passed r) ↔ (
        (is_safe_method r.method ≡ true)
        ⊎ (r.auth_source ≡ bearer)
        ⊎ (out_of_scope cookie_names r ≡ true)
        ⊎ ((find_cookie cookie_name r.cookies ≡ some r.csrf_header) × (r.csrf_header ≢ "")))
unfolding protect
protect-passed_tests names r = (
  λ e. ground (
    arith,
    is_bearer_iff r.auth_source,
    check_tokens-passed (find_cookie cookie_name r.cookies) r.csrf_header r,
  ),
  λ h. ground (arith, is_bearer_iff r.auth_source, check_tokens_match r.csrf_header r),
)

-- A request is handed on exactly when its method is GET, HEAD or OPTIONS, or it authenticates by a
-- bearer token, or the middleware is limited to cookies each of which it lacks or carries empty, or it
-- carries the token twice: in the cookie, and the same value in the header, which is not empty.
pub protect-passed_iff :
    (cookie_names : List String) (r : Request)
    → (protect cookie_names r ≡ passed r) ↔ (
        ((r.method ≡ "GET") ⊎ (r.method ≡ "HEAD") ⊎ (r.method ≡ "OPTIONS"))
        ⊎ (r.auth_source ≡ bearer)
        ⊎ ((cookie_names ≢ [])
            × All
                (λ name. (v : String) → find_cookie name r.cookies ≡ some v → v ≡ "")
                cookie_names)
        ⊎ ((find_cookie cookie_name r.cookies ≡ some r.csrf_header) × (r.csrf_header ≢ "")))
protect-passed_iff names r =
    let tests = protect-passed_tests names r in
    let safe = is_safe_method_iff r.method in
    let scope = out_of_scope_iff names r in
    (
      λ e. elim (tests.0 e) [
        | inl a ↦ inl (safe.0 a)
        | inr (inl b) ↦ inr (inl b)
        | inr (inr (inl c)) ↦ inr (inr (inl (scope.0 c)))
        | inr (inr (inr d)) ↦ inr (inr (inr d))
      ],
      λ h. tests.1 (elim h [
        | inl a ↦ inl (safe.1 a)
        | inr (inl b) ↦ inr (inl b)
        | inr (inr (inl c)) ↦ inr (inr (inl (scope.1 c)))
        | inr (inr (inr d)) ↦ inr (inr (inr d))
      ]),
    )
