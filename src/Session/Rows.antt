-- ===== src/Session/Rows.antt =====
-- What a verdict says of the row that it was read from, and what an update does to an open session.
use stock_backend.Prelude.{
  ℕ, ◌+◌, ◌≤◌, ◌≡◌, Bool, true, false, ◌&&◌, some, List, ◌∷◌, String, arith, find_by, any, count_by,
  is_none, string_eq, list_eq,
}
use stock_backend.Database.{ok}
use stock_backend.Session.Store.{
  clear_successor, RefreshSession, TokenHash, Db, CreateParams, create_refresh_session,
  session_with_email, has_hash, has_family, consume, revoke, new_row, insertable,
}
use stock_backend.Session.Rotation.{theft, live, judge, judge_row, verdict}

-- A session that no exchange has consumed and no revocation has closed.
abbrev pub is_open : RefreshSession → Bool
is_open s = is_none s.consumed_at && is_none s.revoked_at

abbrev pub open_in : String → RefreshSession → Bool
open_in f s = has_family f s && is_open s

abbrev pub open_count : String → List RefreshSession → ℕ
open_count f = count_by (open_in f)

pub consume_closes :
    (f : String) (now : ℕ) (next : String) (s : RefreshSession)
    → open_in f (consume now next s) ≡ true
    → open_in f s ≡ true
consume_closes f now next s h = ground arith

pub revoke_closes :
    (f : String) (now : ℕ) (s : RefreshSession)
    → open_in f (revoke now s) ≡ true
    → open_in f s ≡ true
revoke_closes f now s h = ground arith

pub clear_closes :
    (f : String) (s : RefreshSession) → open_in f (clear_successor s) ≡ true → open_in f s ≡ true
clear_closes f s h = h

pub consumed_closed :
    (f : String) (now : ℕ) (next : String) (s : RefreshSession)
    → open_in f (consume now next s) ≡ false
consumed_closed f now next s = ground arith

-- A live verdict comes from an open row with the token's hash.
pub live_row :
    (h : TokenHash) (now : ℕ) (t : Db) (s : RefreshSession) (email : String)
    → verdict h now t ≡ live s email
    → (find_by (has_hash h) t.sessions ≡ some s) × (is_open s ≡ true) × (now + 1 ≤ s.expires_at)
unfolding judge judge_row session_with_email
live_row h now t s email e = ground arith

-- Creating a row: it was insertable, and stands in front of the others.
pub created :
    (p : CreateParams) (t t' : Db) (row : RefreshSession)
    → create_refresh_session p t ≡ ok (row, t')
    → (insertable t p ≡ true)
      × (row ≡ new_row t p)
      × (t' ≡ record t { sessions = new_row t p ∷ t.sessions })
unfolding create_refresh_session
created p t t' row e = ground arith

pub new_hash :
    (t : Db) (p : CreateParams)
    → insertable t p ≡ true
    → any (has_hash p.token_hash) t.sessions ≡ false
unfolding insertable
new_hash t p h = ground arith

-- A theft verdict comes from a consumed row with the token's hash.
pub theft_row :
    (h : TokenHash) (now : ℕ) (t : Db) (s : RefreshSession)
    → verdict h now t ≡ theft s
    → (find_by (has_hash h) t.sessions ≡ some s) × (is_none s.consumed_at ≡ false)
unfolding judge judge_row session_with_email
theft_row h now t s e = ground arith
