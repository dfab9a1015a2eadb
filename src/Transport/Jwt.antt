-- ===== src/Transport/Jwt.antt =====
-- internal/transport/jwt: the authentication middleware, the subject of a token, and the blacklist of
-- revoked tokens. Parsing and checking a token is the JWT library's: `Library`. Times are nanoseconds.
pub mod Proofs
pub mod Chain
pub mod Logout
use Prim.Native.Char.{code}
use stock_backend.Prelude.{
  ℕ, suc, ◌+◌, ◌-◌, ◌*◌, ◌^◌, ◌≡◌, Bool, true, false, not, ◌&&◌, ◌||◌, Option, none, some, List, [],
  ◌∷◌, String, ltb, leb, ◌==◌, if◌then◌else◌, string_eq, nat_eq,
}
use stock_backend.Transport.Request.{
  Request, Outcome, rejected, passed, AuthSource, anonymous, cookie, bearer, find_cookie,
}

-- A claim as the JSON decoder gives it. A number is a finite float64: its sign, its whole part, and
-- whether a fraction is left.
pub data Claim : Type 0 where
  absent other : Claim
  text : String → Claim
  number : Bool → ℕ → Bool → Claim

pub record Claims : Type 0 where
  pub sub : Claim
  pub jti : Claim
  pub exp : Claim

pub data SigningMethod : Type 0 where
  hmac foreign : SigningMethod

-- `claims` is `none` where they are no `MapClaims`.
pub record Token : Type 0 where
  pub valid : Bool
  pub claims : Option Claims

-- What is Go's and the clients'. `parse` is `gojwt.Parse` with the key function and the time; `none` is
-- an error. `remaining` is `time.Until(time.Unix(int64(exp), 0))` for an exp with this whole part, at a
-- time; it is 0 where nothing is left. `kept` is how long Redis keeps a key that is SET with a duration.
pub record Library : Type 0 where
  pub parse : (SigningMethod → Option String) → ℕ → String → Option Token
  pub remaining : ℕ → ℕ → ℕ
  pub kept : ℕ → ℕ

-- Only tokens signed by HMAC get the key.
unfoldable pub key_for : String → SigningMethod → Option String
key_for secret hmac = some secret
key_for secret foreign = none

abbrev pub parse_token : Library → String → ℕ → String → Option Token
parse_token l secret now token = l.parse (key_for secret) now token

abbrev pub codes : String → List ℕ
codes String.[] = []
codes (String.◌∷◌ c s) = code c ∷ codes s

abbrev pub digits_value : ℕ → List ℕ → Option ℕ
digits_value acc [] = some acc
digits_value acc (c ∷ cs) =
    let rest = digits_value (acc * 10 + (c - b'0')) cs in
    if leb b'0' c && leb c b'9' then rest else none

-- The magnitude, which must have a digit.
abbrev pub magnitude : List ℕ → Option ℕ
magnitude [] = none
magnitude (c ∷ cs) = digits_value 0 (c ∷ cs)

abbrev pub in_int64 : Option ℕ → Option ℕ
in_int64 none = none
in_int64 (some n) = if ltb n (2 ^ 63) then some n else none

-- `strconv.ParseInt(s, 10, 64)` where its result is at least 0; `none` is an error or a result below 0.
unfoldable pub parse_int64 : List ℕ → Option ℕ
parse_int64 [] = none
parse_int64 (c ∷ cs) =
    if c == b'+'
    then in_int64 (magnitude cs)
    else if c == b'-'
    then none
    else in_int64 (magnitude (c ∷ cs))

abbrev pub positive : Option ℕ → Option ℕ
positive none = none
positive (some n) = if n == 0 then none else some n

abbrev pub max_safe_integer : ℕ
max_safe_integer = 2 ^ 53 - 1

-- `parseSubject`; a numeric subject must be a whole number from 1 to 2^53 - 1.
unfoldable pub parse_subject : Claim → Option ℕ
unfolding parse_int64
parse_subject (text s) = positive (parse_int64 (codes s))
parse_subject (number negative whole fraction) =
    if negative || whole == 0 || ltb max_safe_integer whole || fraction then none else some whole
parse_subject absent = none
parse_subject other = none

-- The blacklist's keys that Redis holds, each with the time at which it expires; `none` is no client.
abbrev pub Blacklist : Type 0
Blacklist = Option (List (String × ℕ))

unfoldable pub exists_key : ℕ → String → List (String × ℕ) → Bool
exists_key now k [] = false
exists_key now k ((j, at) ∷ ks) = (j == k && ltb now at) || exists_key now k ks

-- `IsRevoked`: no client, an empty jti or a failed round trip count as not revoked.
unfoldable pub is_revoked : Blacklist → Bool → ℕ → String → Bool
unfolding exists_key
is_revoked none fails now jti = false
is_revoked (some ks) fails now jti =
    if jti == "" then false else if fails then false else exists_key now jti ks

-- SET replaces what the key held.
abbrev pub without_key : String → List (String × ℕ) → List (String × ℕ)
without_key k [] = []
without_key k ((j, at) ∷ ks) =
    let rest = without_key k ks in if j == k then rest else (j, at) ∷ rest

-- `Revoke` for the time `ttl`: with nothing left to live there is nothing to do. The result says
-- whether the round trip succeeded.
unfoldable pub revoke : Library → Blacklist → Bool → ℕ → String → ℕ → Blacklist × Bool
revoke l none fails now jti ttl = (none, true)
revoke l (some ks) fails now jti ttl =
    if jti == "" || ttl == 0
    then (some ks, true)
    else if fails
    then (some ks, false)
    else (some ((jti, now + l.kept ttl) ∷ without_key jti ks), true)

-- `strings.CutPrefix`
unfoldable pub cut_prefix : String → String → Option String
cut_prefix s String.[] = some s
cut_prefix String.[] (String.◌∷◌ p ps) = none
cut_prefix (String.◌∷◌ c cs) (String.◌∷◌ p ps) = if code c == code p then cut_prefix cs ps else none

abbrev pub bearer_token : Option String → String × AuthSource
bearer_token none = ("", anonymous)
bearer_token (some token) = (token, bearer)

abbrev pub cookie_or_bearer : Option String → String → String × AuthSource
cookie_or_bearer none authorization = bearer_token (cut_prefix authorization "Bearer ")
cookie_or_bearer (some v) authorization =
    if v == "" then bearer_token (cut_prefix authorization "Bearer ") else (v, cookie)

-- `ExtractToken`: the cookie `auth_token` goes before the Authorization header.
unfoldable pub extract_token : Request → String × AuthSource
unfolding find_cookie cut_prefix
extract_token r = cookie_or_bearer (find_cookie "auth_token" r.cookies) r.authorization

abbrev pub claim_text : Claim → String
claim_text (text s) = s
claim_text _ = ""

-- The end of `AuthRequired`: a revoked token is refused, any other puts its owner in the context.
abbrev pub admit : Bool → ℕ → AuthSource → Request → Outcome
admit true user_id source r = rejected 401 "token has been revoked"
admit false user_id source r = passed (record r { user_id = some user_id; auth_source = source })

abbrev pub check_subject : Blacklist → Bool → ℕ → Claims → AuthSource → Request → Option ℕ → Outcome
check_subject b fails now c source r none = rejected 401 "invalid token: invalid subject"
check_subject b fails now c source r (some user_id) =
    admit (is_revoked b fails now (claim_text c.jti)) user_id source r

abbrev pub check_claims : Blacklist → Bool → ℕ → AuthSource → Request → Option Claims → Outcome
check_claims b fails now source r none = rejected 401 "invalid token claims"
check_claims b fails now source r (some c) =
    check_subject b fails now c source r (parse_subject c.sub)

abbrev pub check_token : Blacklist → Bool → ℕ → AuthSource → Request → Option Token → Outcome
check_token b fails now source r none = rejected 401 "invalid token"
check_token b fails now source r (some t) =
    if not t.valid then rejected 401 "invalid token" else check_claims b fails now source r t.claims

-- `AuthRequired` with the secret, the blacklist and whether its round trip fails.
unfoldable pub auth_required : Library → String → Blacklist → Bool → ℕ → Request → Outcome
unfolding extract_token parse_subject is_revoked
auth_required l secret b fails now r =
    let (token, source) = extract_token r in
    if secret == ""
    then rejected 500 "server misconfigured"
    else if token == ""
    then rejected 401 "missing authentication token"
    else check_token b fails now source r (parse_token l secret now token)

-- What is left of `exp`; an `exp` below 0 is in the past.
abbrev pub time_left : Library → ℕ → Claim → Option ℕ
time_left l now (number negative whole fraction) =
    some (if negative then 0 else l.remaining whole now)
time_left l now _ = none

abbrev pub revoke_claims : Library → Blacklist → Bool → ℕ → String → Option ℕ → Blacklist × Bool
revoke_claims l b fails now jti none = (b, true)
revoke_claims l b fails now jti (some ttl) =
    if jti == "" then (b, true) else revoke l b fails now jti ttl

abbrev pub revoke_found : Library → Blacklist → Bool → ℕ → Option Claims → Blacklist × Bool
revoke_found l b fails now none = (b, true)
revoke_found l b fails now (some c) =
    revoke_claims l b fails now (claim_text c.jti) (time_left l now c.exp)

abbrev pub revoke_token : Library → Blacklist → Bool → ℕ → Option Token → Blacklist × Bool
revoke_token l b fails now none = (b, true)
revoke_token l b fails now (some t) =
    if not t.valid then (b, true) else revoke_found l b fails now t.claims

-- `RevokeRequestToken`: the blacklist afterwards, and whether the round trip succeeded.
unfoldable pub revoke_request_token :
    Library → String → Blacklist → Bool → ℕ → Request → Blacklist × Bool
unfolding extract_token revoke
revoke_request_token l secret b fails now r =
    let (token, source) = extract_token r in
    if token == "" then (b, true) else revoke_token l b fails now (parse_token l secret now token)
