-- ===== src/AuthHttp/Cookies.antt =====
-- The cookies of internal/feature/auth/authhttp/handler.go. Path and SameSite are the same for all.
-- `expires` is in nanoseconds since 1970.
use stock_backend.Prelude.{
  ℕ, ◌+◌, ◌*◌, ◌^◌, Bool, true, false, List, [], ◌∷◌, ◌++◌, String, ◌==◌, if◌then◌else◌, ltb,
  string_eq, ℤ, pos, negsuc,
}
use stock_backend.Session.Service.{TokenPair}

pub record SessionCookieConfig : Type 0 where
  pub secure : Bool
  pub domain : String

pub record Cookie : Type 0 where
  pub name : String
  pub value : String
  pub domain : String
  pub max_age : ℤ
  pub expires : ℕ
  pub secure : Bool
  pub http_only : Bool

-- Seconds: 10 minutes and 30 days.
abbrev pub auth_cookie_max_age : ℕ
auth_cookie_max_age = 600

abbrev pub refresh_cookie_max_age : ℕ
refresh_cookie_max_age = 2592000

abbrev pub host_only : SessionCookieConfig → SessionCookieConfig
host_only cfg = record cfg { domain = "" }

abbrev pub expiry_of : ℕ → ℤ → ℕ
expiry_of now (pos n) = if ltb 0 n then now + n * 10 ^ 9 else 10 ^ 9
expiry_of now (negsuc n) = 10 ^ 9

abbrev pub auth_cookie : ℕ → String → String → ℤ → SessionCookieConfig → Bool → Cookie
auth_cookie now name value max_age cfg http_only = record {
  name = name;
  value = value;
  domain = cfg.domain;
  max_age = max_age;
  expires = expiry_of now max_age;
  secure = cfg.secure;
  http_only = http_only;
}

unfoldable pub clear_session_cookies_for_config : ℕ → SessionCookieConfig → List Cookie
clear_session_cookies_for_config now cfg =
    auth_cookie now "auth_token" "" (negsuc 0) cfg true
    ∷ auth_cookie now "refresh_token" "" (negsuc 0) cfg true
    ∷ auth_cookie now "csrf_token" "" (negsuc 0) cfg false
    ∷ []

-- Cookies of the host alone are deleted too where the others are the parent domain's.
abbrev pub cleared_host_only : ℕ → SessionCookieConfig → List Cookie
cleared_host_only now cfg =
    if cfg.domain == "" then [] else clear_session_cookies_for_config now (host_only cfg)

unfoldable pub clear_session_cookies : ℕ → SessionCookieConfig → List Cookie
unfolding clear_session_cookies_for_config
clear_session_cookies now cfg =
    clear_session_cookies_for_config now cfg ++ cleared_host_only now cfg

unfoldable pub set_session_cookies_with_csrf :
    ℕ → TokenPair → String → SessionCookieConfig → List Cookie
unfolding clear_session_cookies_for_config
set_session_cookies_with_csrf now pair csrf_token cfg =
    cleared_host_only now cfg
    ++ (auth_cookie now "auth_token" pair.access_token (pos auth_cookie_max_age) cfg true
        ∷ auth_cookie now "refresh_token" pair.refresh_token (pos refresh_cookie_max_age) cfg true
        ∷ auth_cookie now "csrf_token" csrf_token (pos refresh_cookie_max_age) cfg false
        ∷ [])
