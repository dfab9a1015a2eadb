-- ===== src/Session/History/Once.antt =====
-- The refresh of internal/feature/auth/session.go in a history, and the token that it exchanged.
use stock_backend.Prelude.{
  ℕ, ◌≡◌, refl, sym, ◌∙◌, ◌≢◌, false, Option, some, List, [], ◌∷◌, String, arith, All, is_none,
  find_by_unique, update_where, beq_refl, Bool-cases, ap, subst, if◌then◌else◌, string_eq,
  All-find_by, ◌⊎◌, inl, inr, list_eq, nat_eq, ◌==◌,
}
use stock_backend.Database.{Result, ok, err, Conn, inspect}
use stock_backend.Session.Service
use stock_backend.Session.Store.{
  RefreshSession, TokenHash, Db, CreateParams, consume, new_row, Error, has_hash, has_id,
  consume_session,
}
use stock_backend.Session.Rotation.{verdict, successor}
use stock_backend.Session.Rotation.Exchange.{Exchanged, rotate-Exchanged}
use stock_backend.Session.Rows.{live_row, created}
use stock_backend.Session.Invariant.{IsValid}
use stock_backend.Session.Repository.{Factory}
use stock_backend.Session.Repository
use stock_backend.Session.Service.{
  Deps, Draw, TokenPair, next_factory, prepare, new_refresh_session, with_access_token,
}
use stock_backend.Session.History.{Request, refreshes, issues, logs_out, cleans, connect, step, run}
use stock_backend.Session.History.Rows.{Rows}
use stock_backend.Session.History.Steps.{
  Creates, step-Rows, refresh-empty, refresh-rotate, refreshed-conn,
}

-- Every row with the digest is consumed.
abbrev IsSpent : TokenHash → RefreshSession → Type 0
IsSpent h s = s.token_hash ≡ h → is_none s.consumed_at ≡ false

-- No random token of the request has the digest: 32 random bytes do not come twice.
abbrev pub Avoids : Deps → TokenHash → Draw → Type 0
Avoids d h draw = (k : ℕ) (raw : String) → draw k ≡ some raw → d.hash_refresh_token raw ≢ h

abbrev pub RequestAvoids : Deps → TokenHash → Request → Type 0
RequestAvoids d h (refreshes draw now token fault) = Avoids d h draw
RequestAvoids d h (issues draw now user_id email fault) = Avoids d h draw
RequestAvoids d h (logs_out now token fault) = Unit
RequestAvoids d h (cleans now fault) = Unit

module _ (d : Deps) (draw : Draw) where
  -- The digest of a new session is that of one of the request's random tokens.
  pub new_refresh_session-draws :
      (user_id : ℕ) (family_id : String) (now : ℕ) (raw : String) (p : CreateParams)
      → new_refresh_session d draw user_id family_id now ≡ ok (raw, p)
      → (p.token_hash ≡ d.hash_refresh_token raw) × ((draw 1 ≡ some raw) ⊎ (draw 2 ≡ some raw))
  unfolding new_refresh_session
  new_refresh_session-draws user_id family_id now raw p e = ground arith

  -- What the closure of `Refresh` hands back is a session that it has just made, and its token.
  pub next_factory-makes :
      (now : ℕ) (s : RefreshSession) (email : String) (next : CreateParams) (pair : TokenPair)
      → next_factory d draw now s email ≡ ok (some next, pair)
      → (new_refresh_session d draw s.user_id s.family_id now ≡ ok (pair.refresh_token, next))
        × (pair.refresh_expires_at ≡ next.expires_at)
  unfolding next_factory
  next_factory-makes now s email next pair e = ground arith

  pub prepare-makes :
      (user_id : ℕ) (email : String) (now : ℕ) (access raw : String) (p : CreateParams)
      → prepare d draw user_id email now ≡ ok (access, raw, p)
      → new_refresh_session d draw user_id "" now ≡ ok (raw, p)
  unfolding prepare
  prepare-makes user_id email now access raw p e = ground arith

  new-Avoids :
      (h : TokenHash) (user_id : ℕ) (family_id : String) (now : ℕ) (raw : String) (p : CreateParams)
      → Avoids d h draw
      → new_refresh_session d draw user_id family_id now ≡ ok (raw, p)
      → p.token_hash ≢ h
  new-Avoids h user_id family_id now raw p a e same =
      let made = new_refresh_session-draws user_id family_id now raw p e in
      elim made.1 [
        | inl one ↦ a 1 raw one (sym made.0 ∙ same)
        | inr two ↦ a 2 raw two (sym made.0 ∙ same)
      ]

module _ (d : Deps) (h : TokenHash) where
  Spent-Creates : (t : Db) (r : Request) → RequestAvoids d h r → Creates d (IsSpent h) t r
  Spent-Creates t (refreshes draw now token fault) a = λ s email next pair v e same. absurd (
      new-Avoids d draw h s.user_id s.family_id now pair.refresh_token next a
        (next_factory-makes d draw now s email next pair e).0 same)
  Spent-Creates t (issues draw now user_id email fault) a = λ access raw p e same. absurd (
      new-Avoids d draw h user_id "" now raw p a
        (prepare-makes d draw user_id email now access raw p e) same)
  Spent-Creates t (logs_out now token fault) a = tt
  Spent-Creates t (cleans now fault) a = tt

  run-Spent :
      (t : Db) (rs : List Request)
      → Rows (IsSpent h) t
      → All (RequestAvoids d h) rs
      → Rows (IsSpent h) (run d t rs)
  unfolding run
  run-Spent t [] spent a = spent
  run-Spent t (r ∷ rs) spent a =
      run-Spent (step d t r) rs
        (step-Rows (IsSpent h) (λ now next s q same. refl) (λ now s q same. q same)
          (λ s q same. q same) d t spent r (Spent-Creates t r a.0))
        a.1

consume-token_hash :
    (i : String) (now : ℕ) (next : String) (s : RefreshSession)
    → (if has_id i s then consume now next s else s).token_hash ≡ s.token_hash
consume-token_hash i now next s = ground arith

-- Consuming the one row with the digest leaves none that is not consumed.
consume-Spent :
    (h : TokenHash) (now : ℕ) (next : String) (s : RefreshSession) (xs : List RefreshSession)
    → All (λ y. y.token_hash ≡ h → y ≡ s) xs
    → All (IsSpent h) (update_where (has_id s.id) (consume now next) xs)
consume-Spent h now next s [] only = tt
consume-Spent h now next s (y ∷ ys) only = elim (Bool-cases (has_id s.id y)) [
  | inl hit ↦ rw hit (λ _. refl, consume-Spent h now next s ys only.1)
  | inr miss ↦
      rw miss (
        λ same. absurd (cc (miss, only.0 same, beq_refl s.id)),
        consume-Spent h now next s ys only.1,
      )
]

-- After an exchange every row with the digest of the token is consumed.
Exchanged-IsSpent :
    {A : Type 0} (factory : Factory A) (now : ℕ) (t : Db) (h : TokenHash) (a : A) (t' : Db)
    → IsValid t
    → ((s : RefreshSession) (email : String) (next : CreateParams) (b : A)
        → factory s email ≡ ok (some next, b)
        → next.token_hash ≢ h)
    → Exchanged factory now t (verdict h now t) a t'
    → Rows (IsSpent h) t'
unfolding consume_session
Exchanged-IsSpent factory now t h a t' v avoids x =
    let row = live_row h now t x.current x.email x.was_live in
    let made = created (successor x.current x.next) t x.grown x.row x.inserts in
    let new : RefreshSession = new_row t (successor x.current x.next) in
    let others =
      find_by_unique (λ s. RefreshSession.token_hash s) h t.sessions {s = x.current} v.distinct
        row.0 in
    rw (x.consumes, made.2)
      (
        λ same. absurd (
            avoids x.current x.email x.next a x.made
              (sym (consume-token_hash x.current.id now x.next.id new) ∙ same)),
        consume-Spent h now x.next.id x.current t.sessions others,
      )

-- No presentation of a token is answered with a pair while its rows are consumed.
spent-not-exchanged :
    {A : Type 0} (factory : Factory A) (now : ℕ) (h : TokenHash) (a : A) (c : Conn Db)
    → Rows (IsSpent h) c.durable
    → (Repository.rotate h now (some factory) c).0 ≢ ok a
spent-not-exchanged factory now h a c spent e =
    let x = rotate-Exchanged factory now a h c e in
    let row = live_row h now c.durable x.current x.email x.was_live in
    let found =
      All-find_by (IsSpent h) (has_hash h) c.durable.sessions {x = x.current} spent row.0 in
    absurd (ground (arith, row.1, found.0 ((list_eq.beq_iff x.current.token_hash h).0 found.1)))

-- A refresh that succeeds has exchanged the token.
refreshed-ok :
    (run : Result Error TokenPair × Conn Db) (pair : TokenPair)
    → (inspect Service.refreshed run).0 ≡ ok pair
    → run.0 ≡ ok pair
unfolding Service.refreshed
refreshed-ok (ok p, c) pair e = e
refreshed-ok (err x, c) pair e = absurd (ground arith)

pub refresh-ok :
    (d : Deps) (draw : Draw) (now : ℕ) (token : String) (c : Conn Db) (pair : TokenPair)
    → (Service.refresh d draw now token c).0 ≡ ok pair
    → ((Repository.rotate (d.hash_refresh_token token) now (some (next_factory d draw now)) c).0
        ≡ ok pair)
      × ((Service.refresh d draw now token c).1
          ≡ (Repository.rotate
              (d.hash_refresh_token token)
              now
              (some (next_factory d draw now))
              c).1)
refresh-ok d draw now token c pair e = elim (Bool-cases (token == "")) [
  | inl y ↦ absurd (ground (arith, refresh-empty d draw now token c y))
  | inr n ↦
      let same = refresh-rotate d draw now token c n in
      (refreshed-ok _ pair (sym (ap (λ r. r.0) same) ∙ e), ap (λ r. r.1) same ∙ refreshed-conn _)
]

-- A token that a refresh has exchanged is refused ever after: whatever refreshes, logins, logouts and
-- cleanups come between, whatever calls of the driver fail, and whenever it is presented again. The
-- table is valid before the exchange, and no random token drawn since has the token's digest.
pub refresh_once :
    (d : Deps) (t : Db) (draw : Draw) (now : ℕ) (token : String) (fault : ℕ → Option ℕ)
    (rs : List Request) (draw' : Draw) (now' : ℕ) (fault' : ℕ → Option ℕ) (pair pair' : TokenPair)
    → IsValid t
    → Avoids d (d.hash_refresh_token token) draw
    → All (RequestAvoids d (d.hash_refresh_token token)) rs
    → (Service.refresh d draw now token (connect t fault)).0 ≡ ok pair
    → (Service.refresh d draw' now' token
        (connect (run d (step d t (refreshes draw now token fault)) rs) fault')).0
      ≢ ok pair'
unfolding step
refresh_once d t draw now token fault rs draw' now' fault' pair pair' v a later first again =
    let h : TokenHash = d.hash_refresh_token token in
    let factory : Factory TokenPair = next_factory d draw now in
    let one = refresh-ok d draw now token (connect t fault) pair first in
    let exchanged = rotate-Exchanged factory now pair h (connect t fault) one.0 in
    let spent : Rows (IsSpent h) (Service.refresh d draw now token (connect t fault)).1.durable =
      subst (λ (c : Conn Db). Rows (IsSpent h) c.durable) (sym one.1)
        (Exchanged-IsSpent factory now t h pair _ v
          (λ s email next b e.
            new-Avoids d draw h s.user_id s.family_id now b.refresh_token next a
              (next_factory-makes d draw now s email next b e).0)
          exchanged) in
    let two = refresh-ok d draw' now' token _ pair' again in
    spent-not-exchanged (next_factory d draw' now') now' h pair' _
      (run-Spent d h (Service.refresh d draw now token (connect t fault)).1.durable rs spent later)
      two.0
