-- ===== src/Transport/Jwt/Proofs.antt =====
-- `AuthRequired` (internal/transport/jwt/middleware.go) read backwards, from a request that passes.
use stock_backend.Prelude.{
  ℕ, ◌≡◌, refl, ◌∙◌, ◌≢◌, ◌⊎◌, ◌<◌, ◌≤◌, ◌^◌, List, [], ◌∷◌, All, inl, inr, Bool, true, false,
  Option, none, some, String, arith, ◌==◌, if◌then◌else◌, string_eq, nat_eq, Bool-cases,
}
use stock_backend.Transport.Request.{Request, Outcome, rejected, passed, AuthSource}
use stock_backend.Transport.Jwt.{
  Claim, text, number, absent, other, parse_int64, in_int64, magnitude, positive, codes, exists_key,
  Claims, Token, Library, parse_token, parse_subject, Blacklist, is_revoked, extract_token,
  claim_text, auth_required, check_token, check_claims, check_subject, admit,
}

-- No check of the blacklist was made that could refuse the identifier, or none of its keys is left.
abbrev pub NotRevoked : Blacklist → Bool → ℕ → String → Type 0
NotRevoked b fails now jti =
    (b ≡ none)
    ⊎ (jti ≡ "")
    ⊎ (fails ≡ true)
    ⊎ ((ks : List (String × ℕ)) × (b ≡ some ks) × All (λ k. k.0 ≡ jti → k.1 ≤ now) ks)

exists_key-NotHeld :
    (now : ℕ) (jti : String) (ks : List (String × ℕ))
    → exists_key now jti ks ≡ false
    → All (λ k. k.0 ≡ jti → k.1 ≤ now) ks
unfolding exists_key
exists_key-NotHeld now jti [] e = tt
exists_key-NotHeld now jti ((j, at) ∷ ks) e =
    (λ same. ground (arith, string_eq.beq_iff j jti), exists_key-NotHeld now jti ks (ground arith))

is_revoked-NotRevoked :
    (b : Blacklist) (fails : Bool) (now : ℕ) (jti : String)
    → is_revoked b fails now jti ≡ false
    → NotRevoked b fails now jti
unfolding is_revoked
is_revoked-NotRevoked none fails now jti e = inl refl
is_revoked-NotRevoked (some ks) true now jti e = inr (inr (inl refl))
is_revoked-NotRevoked (some ks) false now jti e = elim (Bool-cases (jti == "")) [
  | inl f ↦ inr (inl ((string_eq.beq_iff jti "").0 f))
  | inr f ↦ inr (inr (inr (ks, refl, exists_key-NotHeld now jti ks (rw f at e))))
]

in_int64-lt : (o : Option ℕ) (n : ℕ) → in_int64 o ≡ some n → n < 2 ^ 63
in_int64-lt none n e = absurd (ground arith)
in_int64-lt (some m) n e = ground arith

parse_int64-lt : (s : List ℕ) (n : ℕ) → parse_int64 s ≡ some n → n < 2 ^ 63
unfolding parse_int64
parse_int64-lt [] n e = absurd (ground arith)
parse_int64-lt (c ∷ cs) n e =
    ground (arith, in_int64-lt (magnitude cs) n, in_int64-lt (magnitude (c ∷ cs)) n)

positive-lt :
    (o : Option ℕ) (n : ℕ)
    → ((m : ℕ) → o ≡ some m → m < 2 ^ 63)
    → positive o ≡ some n
    → (0 < n) × (n < 2 ^ 63)
positive-lt none n h e = absurd (ground arith)
positive-lt (some m) n h e = ground (arith, h m refl)

parse_subject-positive :
    (sub : Claim) (user_id : ℕ)
    → parse_subject sub ≡ some user_id
    → (0 < user_id) × (user_id < 2 ^ 63)
unfolding parse_subject
parse_subject-positive (number negative whole fraction) user_id e = ground arith
parse_subject-positive absent user_id e = absurd (ground arith)
parse_subject-positive other user_id e = absurd (ground arith)
parse_subject-positive (text s) user_id e =
    positive-lt (parse_int64 (codes s)) user_id (parse_int64-lt (codes s)) e

-- What a request must show to be authenticated as a user.
pub record Authenticates (l : Library) (secret : String) (b : Blacklist) (fails : Bool) (now : ℕ)
    (r : Request) (user_id : ℕ) : Type 0 where
  pub token : Token
  pub claims : Claims
  pub has_secret : secret ≢ ""
  pub has_token : (extract_token r).0 ≢ ""
  pub parses : parse_token l secret now (extract_token r).0 ≡ some token
  pub is_valid : token.valid ≡ true
  pub has_claims : token.claims ≡ some claims
  pub subject : parse_subject claims.sub ≡ some user_id
  pub in_range : (0 < user_id) × (user_id < 2 ^ 63)
  pub not_revoked : NotRevoked b fails now (claim_text claims.jti)

abbrev Shows : Library → String → Blacklist → Bool → ℕ → Request → Request → Type 0
Shows l secret b fails now r r' =
    (user_id : ℕ) × Authenticates l secret b fails now r user_id
    × (r' ≡ record r { user_id = some user_id; auth_source = (extract_token r).1 })

pub auth-steps :
    (l : Library) (secret : String) (b : Blacklist) (fails : Bool) (now : ℕ) (r : Request)
    → auth_required l secret b fails now r ≡ (
        if secret == ""
        then rejected 500 "server misconfigured"
        else if (extract_token r).0 == ""
        then rejected 401 "missing authentication token"
        else check_token b fails now
            (extract_token r).1
            r
            (parse_token l secret now (extract_token r).0))
unfolding auth_required
auth-steps l secret b fails now r = refl

-- `check_subject` with its two questions answered.
abbrev check_found :
    Blacklist → Bool → ℕ → Claims → AuthSource → Request → Option ℕ → Bool → Outcome
check_found b fails now c source r none revoked = rejected 401 "invalid token: invalid subject"
check_found b fails now c source r (some user_id) revoked = admit revoked user_id source r

check_found-check_subject :
    (b : Blacklist) (fails : Bool) (now : ℕ) (c : Claims) (source : AuthSource) (r : Request)
    (found : Option ℕ)
    → check_found b fails now c source r found (is_revoked b fails now (claim_text c.jti))
      ≡ check_subject b fails now c source r found
check_found-check_subject b fails now c source r none = refl
check_found-check_subject b fails now c source r (some user_id) = refl

module _ (l : Library) (secret : String) (b : Blacklist) (fails : Bool) (now : ℕ) (r r' : Request)
    (has_secret : secret ≢ "") (has_token : (extract_token r).0 ≢ "") (t : Token)
    (parses : parse_token l secret now (extract_token r).0 ≡ some t)
    (is_valid : t.valid ≡ true) where
  subject-Shows :
      (c : Claims) (found : Option ℕ) (revoked : Bool)
      → t.claims ≡ some c
      → parse_subject c.sub ≡ found
      → is_revoked b fails now (claim_text c.jti) ≡ revoked
      → check_found b fails now c (extract_token r).1 r found revoked ≡ passed r'
      → Shows l secret b fails now r r'
  subject-Shows c none revoked k f v e = absurd (ground arith)
  subject-Shows c (some user_id) true k f v e = absurd (ground arith)
  subject-Shows c (some user_id) false k f v e = (
    user_id,
    record {
      token = t;
      claims = c;
      has_secret = has_secret;
      has_token = has_token;
      parses = parses;
      is_valid = is_valid;
      has_claims = k;
      subject = f;
      in_range = parse_subject-positive c.sub user_id f;
      not_revoked = is_revoked-NotRevoked b fails now (claim_text c.jti) v;
    },
    ground arith,
  )

  claims-Shows :
      (found : Option Claims)
      → t.claims ≡ found
      → check_claims b fails now (extract_token r).1 r found ≡ passed r'
      → Shows l secret b fails now r r'
  claims-Shows none k e = absurd (ground arith)
  claims-Shows (some c) k e =
      subject-Shows c (parse_subject c.sub) (is_revoked b fails now (claim_text c.jti)) k refl refl
        (check_found-check_subject b fails now c (extract_token r).1 r (parse_subject c.sub) ∙ e)

token-Shows :
    (l : Library) (secret : String) (b : Blacklist) (fails : Bool) (now : ℕ) (r r' : Request)
    → secret ≢ ""
    → (extract_token r).0 ≢ ""
    → (found : Option Token) → parse_token l secret now (extract_token r).0 ≡ found
    → check_token b fails now (extract_token r).1 r found ≡ passed r'
    → Shows l secret b fails now r r'
token-Shows l secret b fails now r r' s k none p e = absurd (ground arith)
token-Shows l secret b fails now r r' s k (some t) p e = elim (Bool-cases t.valid) [
  | inl y ↦ claims-Shows l secret b fails now r r' s k t p y t.claims refl (rw y at e)
  | inr n ↦ absurd (ground arith)
]

-- A request that passes carried a token, in the cookie or else in the header, that parses under the
-- secret to valid claims with the subject of a user, a positive int64; and either the blacklist holds no
-- unexpired key of its identifier, or it could not refuse it: there is no Redis client, the round trip
-- failed, or the token has no identifier. The request goes on with that user and with the place of the
-- token in its context, and is unchanged otherwise.
pub auth_required-passed :
    (l : Library) (secret : String) (b : Blacklist) (fails : Bool) (now : ℕ) (r r' : Request)
    → auth_required l secret b fails now r ≡ passed r'
    → (user_id : ℕ) × Authenticates l secret b fails now r user_id
      × (r' ≡ record r { user_id = some user_id; auth_source = (extract_token r).1 })
auth_required-passed l secret b fails now r r' e = elim (Bool-cases (secret == "")) [
  | inl y ↦ absurd (ground (arith, auth-steps l secret b fails now r))
  | inr n ↦ elim (Bool-cases ((extract_token r).0 == "")) [
    | inl y ↦ absurd (ground (arith, auth-steps l secret b fails now r))
    | inr m ↦
        token-Shows l secret b fails now r r' (λ s. ground (arith, string_eq.beq_iff secret ""))
          (λ s. ground (arith, string_eq.beq_iff (extract_token r).0 "")) _ refl
          (ground (arith, auth-steps l secret b fails now r))
  ]
]
