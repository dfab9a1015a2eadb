-- ===== src/Candles/Ingest/Accounting.antt =====
-- The counts of a run of `IngestAll` (ingest.go).
use stock_backend.Prelude.{
  ℕ, suc, ◌+◌, ◌≤◌, ◌≡◌, refl, sym, ◌∙◌, ap, Bool, Option, none, some, List, [], ◌∷◌, String, arith,
  length, count_by, is_some, is_none,
}
use stock_backend.Database.{ok}
use stock_backend.Candles.Candle.{Float64}
use stock_backend.Candles.Ingest.{
  ActiveSymbol, IngestResult, Turn, World, ingest_one, count, unless, ingest_loop, ingest_all,
}

unless-none :
    (e : Option ℕ) (r : IngestResult) (rest : IngestResult × Option ℕ)
    → (unless e r rest).1 ≡ none
    → unless e r rest ≡ rest
unless-none none r rest h = refl
unless-none (some e) r rest h = absurd (ground arith)

-- A turn that ends the run with no error comes to its end.
turn-none :
    (t : Turn) (r r' : IngestResult) (rest : IngestResult × Option ℕ)
    → (unless t.at_start r
        (unless t.wait_if_needed r (unless t.after_wait r (unless t.at_end r' rest)))).1
      ≡ none
    → unless t.at_start r
        (unless t.wait_if_needed r (unless t.after_wait r (unless t.at_end r' rest)))
      ≡ rest
turn-none t r r' rest h =
    let one = unless-none t.at_start r _ h in
    let two =
      unless-none t.wait_if_needed r _ (ap (λ (s : IngestResult × Option ℕ). s.1) (sym one) ∙ h) in
    let three =
      unless-none t.after_wait r _
        (ap (λ (s : IngestResult × Option ℕ). s.1) (sym two ∙ sym one) ∙ h) in
    let four =
      unless-none t.at_end r' _
        (ap (λ (s : IngestResult × Option ℕ). s.1) (sym three ∙ sym two ∙ sym one) ∙ h) in
    one ∙ two ∙ three ∙ four

add_one : (n : ℕ) → suc n ≡ n + 1
add_one n = omega arith

module _ (f : Float64) (decimal : ℕ → String) (w : World f decimal) where
  abbrev pub has_failed : ActiveSymbol × Turn → Bool
  has_failed (s, t) = is_some (ingest_one f decimal w t s)

  abbrev pub has_succeeded : ActiveSymbol × Turn → Bool
  has_succeeded (s, t) = is_none (ingest_one f decimal w t s)

  -- Every symbol was counted once.
  abbrev pub Counts : List (ActiveSymbol × Turn) → IngestResult → IngestResult → Type 0
  Counts ss r s =
      (s.total ≡ r.total)
      × (s.failed ≡ r.failed + count_by has_failed ss)
      × (s.succeeded ≡ r.succeeded + count_by has_succeeded ss)

  count-Counts :
      (s : ActiveSymbol) (t : Turn) (ss : List (ActiveSymbol × Turn)) (r final : IngestResult)
      (e : Option ℕ)
      → ingest_one f decimal w t s ≡ e
      → Counts ss (count r e) final
      → Counts ((s, t) ∷ ss) r final
  count-Counts s t ss r final none e h = rw e (omega arith, omega arith, omega arith)
  count-Counts s t ss r final (some x) e h = rw e (omega arith, omega arith, omega arith)

  ingest_loop-Counts :
      (ss : List (ActiveSymbol × Turn)) (r : IngestResult)
      → (ingest_loop f decimal w ss r).1 ≡ none
      → Counts ss r (ingest_loop f decimal w ss r).0
  unfolding ingest_loop
  ingest_loop-Counts [] r h = (refl, omega arith, omega arith)
  ingest_loop-Counts ((s, t) ∷ ss) r h =
      let r' : IngestResult = count r (ingest_one f decimal w t s) in
      let whole = turn-none t r r' (ingest_loop f decimal w ss r') h in
      rw whole (
        count-Counts s t ss r (ingest_loop f decimal w ss r').0 (ingest_one f decimal w t s) refl
          (ingest_loop-Counts ss r' (ap (λ (q : IngestResult × Option ℕ). q.1) (sym whole) ∙ h)))

  each_counted :
      (ss : List (ActiveSymbol × Turn))
      → count_by has_failed ss + count_by has_succeeded ss ≡ length ss
  each_counted [] = refl
  each_counted ((s, t) ∷ ss) = ground (arith, each_counted ss)

  -- A run with no error has a count of every symbol: as failed if `ingestOne` failed in its turn, as
  -- succeeded if not, and the two counts make up the total, which is the number of symbols.
  pub ingest_all-accounts :
      (ss : List (ActiveSymbol × Turn)) (s : IngestResult)
      → ingest_all f decimal w (ok ss) ≡ (s, none)
      → (s.total ≡ length ss)
        × (s.failed ≡ count_by has_failed ss)
        × (s.succeeded ≡ count_by has_succeeded ss)
        × (s.succeeded + s.failed ≡ s.total)
  unfolding ingest_all
  ingest_all-accounts ss s h =
      let start : IngestResult = record { total = length ss; succeeded = 0; failed = 0 } in
      let c = ingest_loop-Counts ss start (ap (λ (q : IngestResult × Option ℕ). q.1) h) in
      let same = ap (λ (q : IngestResult × Option ℕ). q.0) h in
      rw (sym same)
        (c.0, omega (arith, c.1), omega (arith, c.2), omega (arith, c.0, c.1, c.2, each_counted ss))

  -- What holds of the counts so far and of the rest holds wherever the run is cut off.
  turn-keeps :
      (Q : IngestResult → Type 0) (t : Turn) (r r' : IngestResult) (rest : IngestResult × Option ℕ)
      → Q r
      → Q r'
      → Q rest.0
      → Q
          (unless t.at_start r
            (unless t.wait_if_needed r (unless t.after_wait r (unless t.at_end r' rest)))).0
  turn-keeps Q t r r' rest a b c =
      keeps t.at_start r _ a
        (keeps t.wait_if_needed r _ a (keeps t.after_wait r _ a (keeps t.at_end r' rest b c)))
    where
      keeps :
          (e : Option ℕ) (q : IngestResult) (next : IngestResult × Option ℕ)
          → Q q
          → Q next.0
          → Q (unless e q next).0
      keeps none q next x y = y
      keeps (some e) q next x y = x

  abbrev Within : ℕ → IngestResult → IngestResult → Type 0
  Within n r s = (s.total ≡ r.total) × (s.succeeded + s.failed ≤ r.succeeded + r.failed + n)

  count-Within : (r : IngestResult) (e : Option ℕ) (n : ℕ) → Within (n + 1) r (count r e)
  count-Within r none n = (refl, omega arith)
  count-Within r (some x) n = (refl, omega arith)

  count_then :
      (r : IngestResult) (e : Option ℕ) (n : ℕ) (s : IngestResult)
      → Within n (count r e) s
      → Within (n + 1) r s
  count_then r none n s h = (h.0, omega (arith, h.1))
  count_then r (some x) n s h = (h.0, omega (arith, h.1))

  ingest_loop-Within :
      (ss : List (ActiveSymbol × Turn)) (r : IngestResult)
      → Within (length ss) r (ingest_loop f decimal w ss r).0
  unfolding ingest_loop
  ingest_loop-Within [] r = (refl, omega arith)
  ingest_loop-Within ((s, t) ∷ ss) r =
      let e : Option ℕ = ingest_one f decimal w t s in
      rw (add_one (length ss)) (
        turn-keeps (Within (length ss + 1) r) t r (count r e)
          (ingest_loop f decimal w ss (count r e)) (refl, omega arith)
          (count-Within r e (length ss))
          (count_then r e (length ss) _ (ingest_loop-Within ss (count r e))))

  -- However a run ends, with the errors of the context and of the rate limiter included, its total is
  -- the number of symbols, and it has not counted more of them.
  pub ingest_all-le :
      (ss : List (ActiveSymbol × Turn))
      → (let s = (ingest_all f decimal w (ok ss)).0 in
          (s.total ≡ length ss) × (s.succeeded + s.failed ≤ s.total))
  unfolding ingest_all
  ingest_all-le ss =
      let h = ingest_loop-Within ss (record { total = length ss; succeeded = 0; failed = 0 }) in
      (h.0, omega (arith, h.0, h.1))
