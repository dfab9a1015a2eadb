-- ===== src/Oauth/States.antt =====
-- oauth_state_store.go over Redis: SET with a time to live, and GETDEL. `fault` says which calls the
-- client reports as failed; they change nothing.
use stock_backend.Prelude.{
  ℕ, suc, ◌+◌, Bool, not, Option, none, some, List, ◌∷◌, String, ◌==◌, if◌then◌else◌, find_by, keep,
  ltb, string_eq,
}
use stock_backend.Database.{Result, ok, err}
use stock_backend.Oauth.Store.{Error, state_not_found, state_store}

pub record StateEntry : Type 0 where
  pub state : String
  pub code_verifier : String
  pub expires_at : ℕ

pub record StateStore : Type 0 where
  pub entries : List StateEntry
  pub calls : ℕ
  pub fault : ℕ → Option ℕ

abbrev pub of_state : String → StateEntry → Bool
of_state state e = e.state == state

abbrev pub without_state : String → StateStore → StateStore
without_state state s = record s {
  entries = keep (λ e. not (of_state state e)) s.entries;
  calls = suc s.calls;
}

abbrev pub new_entry : ℕ → String → String → ℕ → StateEntry
new_entry now state code_verifier ttl = record {
  state = state;
  code_verifier = code_verifier;
  expires_at = now + ttl;
}

unfoldable pub save_state :
    ℕ → String → String → ℕ → StateStore → Result Error (Unit {0}) × StateStore
save_state now state code_verifier ttl s = elim (s.fault s.calls) [
  | some x ↦ (err (state_store x), record s { calls = suc s.calls })
  | none ↦ (
    ok tt,
    record s {
      entries =
          new_entry now state code_verifier ttl ∷ keep (λ e. not (of_state state e)) s.entries;
      calls = suc s.calls;
    },
  )
]

-- An entry whose time is over is not there.
unfoldable pub taken : ℕ → Option StateEntry → Result Error String
taken now none = err state_not_found
taken now (some e) = if ltb now e.expires_at then ok e.code_verifier else err state_not_found

unfoldable pub consume_state : ℕ → String → StateStore → Result Error String × StateStore
unfolding taken
consume_state now state s = elim (s.fault s.calls) [
  | some x ↦ (err (state_store x), record s { calls = suc s.calls })
  | none ↦ (taken now (find_by (of_state state) s.entries), without_state state s)
]
