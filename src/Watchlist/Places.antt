-- ===== src/Watchlist/Places.antt =====
-- The entries of either loop of `UpdateSortKeys`, and the columns that a new key leaves alone.
use stock_backend.Prelude.{
  ℕ, suc, ◌≡◌, refl, ap, ◌∙◌, inl, inr, true, List, [], ◌∷◌, String, length, Bool-cases, nat_eq,
  string_eq, ℤ, pos, negsuc, arith,
}
use stock_backend.Database.{◌>>◌}
use stock_backend.Watchlist.Store.{UserSymbol, has_code, of_user, of_symbol, insert_id, sort_ids}
use stock_backend.Watchlist.Repository.{update_key, shift_keys, write_keys}
use stock_backend.Watchlist.Service.{entries_from}
use stock_backend.Watchlist.Order.{place, Known}
use stock_backend.Watchlist.Rewriting.{entries_with, knows}

pub shift_keys-entries :
    (user i j : ℕ) (codes : List String)
    → shift_keys user i (entries_from j codes) ≡ write_keys user (entries_with negsuc i codes)
unfolding shift_keys write_keys entries_from
shift_keys-entries user i j [] = refl
shift_keys-entries user i j (code ∷ codes) =
    ap (λ m. update_key user code (negsuc i) >> m) (shift_keys-entries user (suc i) (suc j) codes)

pub entries_from-with :
    (i : ℕ) (codes : List String) → entries_from i codes ≡ entries_with pos i codes
unfolding entries_from
entries_from-with i [] = refl
entries_from-with i (code ∷ codes) = ap (λ es. (code, pos i) ∷ es) (entries_from-with (suc i) codes)

pub length-entries_from :
    (i : ℕ) (codes : List String) → length (entries_from i codes) ≡ length codes
unfolding entries_from
length-entries_from i [] = refl
length-entries_from i (code ∷ codes) = ap suc (length-entries_from (suc i) codes)

pub has_code-place :
    (key : ℕ → ℤ) (i : ℕ) (codes : List String) (r : UserSymbol) (code : String)
    → has_code code (place key i codes r) ≡ has_code code r
has_code-place key i [] r code = refl
has_code-place key i (other ∷ codes) r code =
    ground (arith, has_code-place key (suc i) codes r code)

pub of_user-place :
    (key : ℕ → ℤ) (i : ℕ) (codes : List String) (user : ℕ) (r : UserSymbol)
    → of_user user (place key i codes r) ≡ of_user user r
of_user-place key i [] user r = refl
of_user-place key i (code ∷ codes) user r = ground (arith, of_user-place key (suc i) codes user r)

pub of_symbol-place :
    (key : ℕ → ℤ) (i : ℕ) (codes : List String) (user : ℕ) (code : String) (r : UserSymbol)
    → of_symbol user code (place key i codes r) ≡ of_symbol user code r
of_symbol-place key i codes user code r =
    rw (of_user-place key i codes user r, has_code-place key i codes r code) refl

pub Known-knows :
    (rows : List UserSymbol) (codes : List String) → Known rows codes → knows rows codes ≡ true
Known-knows rows [] h = refl
Known-knows rows (code ∷ codes) h = rw (h.0, Known-knows rows codes h.1) refl

pub knows-Known :
    (rows : List UserSymbol) (codes : List String) → knows rows codes ≡ true → Known rows codes
knows-Known rows [] h = tt
knows-Known rows (code ∷ codes) h = (ground arith, knows-Known rows codes (ground arith))

-- The second loop writes each key that the first has written.
pub place_twice :
    (key last : ℕ → ℤ) (i : ℕ) (codes : List String) (r : UserSymbol)
    → place last i codes (place key i codes r) ≡ place last i codes r
place_twice key last i [] r = refl
place_twice key last i (code ∷ codes) r = elim (Bool-cases (has_code code r)) [
  | inl e ↦ rw (e, e) refl
  | inr e ↦
      rw (e, has_code-place key (suc i) codes r code, e) (place_twice key last (suc i) codes r)
]

length-insert_id : (id : ℕ) (ids : List ℕ) → length (insert_id id ids) ≡ suc (length ids)
length-insert_id id [] = refl
length-insert_id id (other ∷ ids) = ground (arith, length-insert_id id ids)

pub length-sort_ids : (ids : List ℕ) → length (sort_ids ids) ≡ length ids
length-sort_ids [] = refl
length-sort_ids (id ∷ ids) = length-insert_id id (sort_ids ids) ∙ ap suc (length-sort_ids ids)
