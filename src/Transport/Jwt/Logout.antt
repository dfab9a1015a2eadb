-- ===== src/Transport/Jwt/Logout.antt =====
-- A logout (revoke.go, blacklist.go) and the requests with its token afterwards, whatever logouts lie
-- between.
use stock_backend.Prelude.{
  ℕ, ◌+◌, ◌-◌, ◌*◌, ◌^◌, ◌≤◌, ◌<◌, ◌≡◌, ◌≢◌, Bool, true, none, some, List, [], ◌∷◌, String, nat_eq,
}
use stock_backend.Transport.Request.{Request}
use stock_backend.Transport.Jwt.{
  Claim, Claims, Token, Library, parse_token, Blacklist, exists_key, extract_token, claim_text,
  revoke_request_token,
}

pub record Logout : Type 0 where
  pub request : Request
  pub at : ℕ
  pub fails : Bool

-- The blacklist after a sequence of logouts.
abbrev pub after_logouts : Library → String → List Logout → Blacklist → Blacklist
after_logouts l secret [] b = b
after_logouts l secret (o ∷ os) b =
    after_logouts l secret os (revoke_request_token l secret b o.fails o.at o.request).0

-- A token that shows the jti has the claim `exp`.
abbrev pub SameExpiry : Library → String → String → Claim → Logout → Type 0
SameExpiry l secret jti exp o =
    (t : Token) (c : Claims)
    → parse_token l secret o.at (extract_token o.request).0 ≡ some t
    → t.claims ≡ some c
    → claim_text c.jti ≡ jti
    → c.exp ≡ exp

module _ (l : Library) (secret jti : String) (whole : ℕ) (fraction : Bool) (full : jti ≢ "")
    (exact : (now : ℕ) → l.remaining whole now ≡ whole * 10 ^ 9 - now)
    (kept_ms : (ttl : ℕ) → 0 < ttl → ttl < l.kept ttl + 10 ^ 6) where
  -- The key of the jti is there until a millisecond before the token expires.
  abbrev Held : Blacklist → Type 0
  Held none = ⊥
  Held (some ks) = (later : ℕ) → later + 10 ^ 6 ≤ whole * 10 ^ 9 → exists_key later jti ks ≡ true
