-- ===== src/Tests/AuthHttp.antt =====
-- A browser exchanges its refresh token.
use stock_backend.Prelude.{◌≡◌, ◌≢◌, refl, true, none, some, [], ◌∷◌, ◌⊎◌}
use stock_backend.Database.{Conn}
use stock_backend.Session.Store.{
  Db, find_family, session_with_email, create_refresh_session, consume_session,
}
use stock_backend.Session.Repository
use stock_backend.Session.Service
use stock_backend.Transport.Request.{Request, anonymous, find_cookie}
use stock_backend.Tests.Sessions.{deps, draws, no_fault, tables}
use stock_backend.AuthHttp.Cookies.{SessionCookieConfig}
use stock_backend.AuthHttp.Handler.{refresh}
use stock_backend.Tests.Oauth.{usecase, begun, draws as random}
use stock_backend.AuthHttp.OauthHandler.{callback}
use stock_backend.AuthHttp.Callback.{SignedIn, TurnedAway, callback_outcome}
use stock_backend.AuthHttp.Refresh.{Exchanged, Declined, refresh_outcome}

abbrev parent : SessionCookieConfig
parent = record { secure = true; domain = "example.com" }

abbrev request : Request
request = record {
  method = "POST";
  cookies = ("refresh_token", "one") ∷ [];
  authorization = "";
  csrf_header = "";
  user_id = none;
  auth_source = anonymous;
}

abbrev start : Conn Db
start = record { durable = tables; working = tables; calls = 0; fault = no_fault }

refresh_outcome_example :
    Exchanged parent 200 deps draws (some "csrf") request start
    ⊎ Declined parent 200 deps draws (some "csrf") request start
refresh_outcome_example = refresh_outcome parent 200 deps draws (some "csrf") request start

answers_ok : (refresh parent 200 deps draws (some "csrf") request start).0.status ≡ 200
unfolding refresh Service.refresh find_family session_with_email create_refresh_session
    consume_session find_cookie Repository.rotate
answers_ok = refl

answers_unknown :
    (refresh parent 200 deps draws
      (some "csrf")
      (record request { cookies = ("refresh_token", "other") ∷ [] })
      start).0.status
    ≡ 401
unfolding refresh Service.refresh find_family session_with_email create_refresh_session
    consume_session find_cookie Repository.rotate
answers_unknown = refl

abbrev returning : Request
returning = record request { cookies = ("oauth_state", "random") ∷ [] }

callback_outcome_example :
    ((find_cookie "oauth_state" returning.cookies ≡ some "random")
      × SignedIn parent 6 usecase random 3
          (λ t. t)
          (some "csrf")
          "google"
          "code"
          "random"
          ""
          returning
          begun
          (callback parent 6 usecase random 3
            (λ t. t)
            (some "csrf")
            "google"
            "code"
            "random"
            ""
            returning
            begun))
    ⊎ TurnedAway parent 6 usecase random 3
        (λ t. t)
        (some "csrf")
        "google"
        "code"
        "random"
        ""
        returning
        begun
        (callback parent 6 usecase random 3
          (λ t. t)
          (some "csrf")
          "google"
          "code"
          "random"
          ""
          returning
          begun).0
      × (find_cookie "oauth_state" returning.cookies ≢ some "random"
          → (callback parent 6 usecase random 3
              (λ t. t)
              (some "csrf")
              "google"
              "code"
              "random"
              ""
              returning
              begun).1
            ≡ begun)
callback_outcome_example =
    callback_outcome parent 6 usecase random 3 (λ t. t) (some "csrf") "google" "code" "random" ""
      returning begun
