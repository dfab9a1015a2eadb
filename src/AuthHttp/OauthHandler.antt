-- ===== src/AuthHttp/OauthHandler.antt =====
-- The handlers of internal/feature/auth/authhttp/oauth.go. A redirect goes to the provider, to the
-- frontend, or to the frontend's login page with a code.
use stock_backend.Prelude.{
  ℕ, Bool, true, false, not, ◌&&◌, ◌||◌, Option, none, some, List, [], ◌∷◌, String, ◌==◌,
  if◌then◌else◌, string_eq, nat_eq, pos, negsuc,
}
use stock_backend.Database.{Result, ok, err}
use stock_backend.Session.Service.{Draw, TokenPair}
use stock_backend.Transport.Request.{Request, find_cookie}
use stock_backend.Oauth.Store.{Tables, Error, oauth_email_conflict}
use stock_backend.Oauth.Flow
use stock_backend.Oauth.Flow.{Usecase, World, handle_callback}
use stock_backend.AuthHttp.Cookies.{
  Cookie, SessionCookieConfig, auth_cookie, host_only, set_session_cookies_with_csrf,
}

pub data ErrorCode : Type 0 where
  account_conflict oauth_failed rate_limited service_unavailable : ErrorCode

pub data Target : Type 0 where
  frontend : Target
  login_error : ErrorCode → Target
  provider_page error_body : String → Target

pub record OauthResponse : Type 0 where
  pub status : ℕ
  pub set_cookies : List Cookie
  pub target : Target

abbrev pub oauth_state_cookie_max_age : ℕ
oauth_state_cookie_max_age = 600

abbrev pub redirect : List Cookie → Target → OauthResponse
redirect cookies target = record { status = 302; set_cookies = cookies; target = target }

unfoldable pub redirect_with_error : List Cookie → ErrorCode → OauthResponse
redirect_with_error cookies code = redirect cookies (login_error code)

unfoldable pub redirect_rate_limit_error : ℕ → OauthResponse
unfolding redirect_with_error
redirect_rate_limit_error status =
    redirect_with_error [] (if status == 503 then service_unavailable else rate_limited)

-- The browser began the login whose state comes back.
unfoldable pub state_matches : Option String → String → Bool
state_matches none state = false
state_matches (some value) state = value == state

unfoldable pub callback_code : Error → ErrorCode
callback_code oauth_email_conflict = account_conflict
callback_code e = oauth_failed

module _ (cfg : SessionCookieConfig) (now : ℕ) where
  abbrev pub state_cookie : String → Cookie
  state_cookie state =
      auth_cookie now "oauth_state" state (pos oauth_state_cookie_max_age) (host_only cfg) true

  abbrev pub state_cookie_deleted : Cookie
  state_cookie_deleted = auth_cookie now "oauth_state" "" (negsuc 0) (host_only cfg) true

  unfoldable pub begun : Result Error (String × String) → OauthResponse
  begun (err e) = record {
    status = 400;
    set_cookies = [];
    target = error_body "unsupported provider";
  }
  begun (ok (url, state)) = redirect (state_cookie state ∷ []) (provider_page url)

  abbrev pub begun_in : Result Error (String × String) × World → OauthResponse × World
  begun_in (r, w) = (begun r, w)

  -- `BeginAuth`
  unfoldable pub begin_auth : Usecase → Draw → String → World → OauthResponse × World
  unfolding begun
  begin_auth uc draw provider w = begun_in (Flow.begin_auth uc draw now provider w)

  unfoldable pub callback_answer : String → Result Error TokenPair → OauthResponse
  unfolding callback_code redirect_with_error
  callback_answer csrf_token (err e) =
      redirect_with_error (state_cookie_deleted ∷ []) (callback_code e)
  callback_answer csrf_token (ok pair) =
      redirect (state_cookie_deleted ∷ set_session_cookies_with_csrf now pair csrf_token cfg)
        frontend

  abbrev pub answered_in : String → Result Error TokenPair × World → OauthResponse × World
  answered_in csrf_token (r, w) = (callback_answer csrf_token r, w)

  abbrev pub failed : World → OauthResponse × World
  failed w = (redirect_with_error (state_cookie_deleted ∷ []) oauth_failed, w)

  module _ (uc : Usecase) (draw : Draw) (id : ℕ) (meanwhile : Tables → Tables) where
    -- The CSRF token is there before a session is issued.
    unfoldable pub callback_with :
        Option String → String → String → String → World → OauthResponse × World
    unfolding callback_answer redirect_with_error
    callback_with none provider code state w = failed w
    callback_with (some csrf_token) provider code state w =
        answered_in csrf_token (handle_callback uc draw now id meanwhile provider code state w)

    -- `Callback`; `provider_error` is the query's `error`.
    unfoldable pub callback :
        Option String → String → String → String → String → Request → World → OauthResponse × World
    unfolding callback_with state_matches redirect_with_error
    callback csrf_token provider code state provider_error r w =
        if state == "" || (code == "" && provider_error == "")
        then failed w
        else if not (state_matches (find_cookie "oauth_state" r.cookies) state)
        then failed w
        else if not (provider_error == "")
        then failed w
        else callback_with csrf_token provider code state w
