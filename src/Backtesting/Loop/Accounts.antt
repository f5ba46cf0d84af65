-- ===== src/Backtesting/Loop/Accounts.antt =====
-- The equity is the capital and the results of the trades, and the curves have a point for each candle.
use mytradingsystem.Decision.{DecisionResult}
use mytradingsystem.Base.{
  List, int_laws, ℤ, ◌∙◌, ◌≡◌, ap, none, sum_ℤ, ℕ, ◌+ℤ◌, map, pos_part, ◌++◌, [], neg_part, ◌∷◌,
  map-append, refl, sum_ℤ-snoc, ok, subst, Bool-cases, sym, inl, inr,
}
use mytradingsystem.Domain.{Candle}
use mytradingsystem.Backtesting.Positions.{Trade}
use mytradingsystem.Backtesting.Loop.{
  Setup, Book, new_book, booked, unqueued, queue, mark, run_loop, is_queued,
}
use mytradingsystem.Backtesting.Loop.Steps.{
  Acted, stays, closes, opens, declines, Processed, run_loop_inv,
}
use mytradingsystem.Backtesting.Metrics.{net_results, last_value}

abbrev pub times : List (ℕ × ℤ) → List ℕ
times ps = map (λ p. p.0) ps

module _ (s : Setup) where
  -- The equity so far.
  abbrev pub Accounted : Book → Type 0
  Accounted b = b.equity ≡ s.config.initial_capital +ℤ sum_ℤ (net_results b.trades)

  net_results-snoc :
      (ts : List Trade) (t : Trade)
      → sum_ℤ (net_results (ts ++ t ∷ [])) ≡ sum_ℤ (net_results ts) +ℤ t.net_pnl
  net_results-snoc ts t =
      ap sum_ℤ (map-append (λ x. x.net_pnl) ts (t ∷ [])) ∙ sum_ℤ-snoc (net_results ts) t.net_pnl

  pub booked-Accounted : (t : Trade) (b : Book) → Accounted b → Accounted (booked t b)
  booked-Accounted t b h =
      rw (net_results-snoc b.trades t) (omega (int_laws, ap pos_part h, ap neg_part h))

  pub Acted-Accounted :
      (c : Candle) (b : Book) {b' : Book} → Acted s c b b' → Accounted b → Accounted b'
  Acted-Accounted c b stays h = h
  Acted-Accounted c b (closes p raw reason t _ _) h = booked-Accounted t b h
  Acted-Accounted c b (opens d q x st g k _ _) h = h
  Acted-Accounted c b (declines r _) h = h

  -- The last point of the equity curve, when nothing is held.
  abbrev pub Pointed : Book → Type 0
  Pointed b = b.position ≡ none → last_value s.config.initial_capital b.equity_curve ≡ b.equity

  last_value-snoc :
      (x : ℤ) (ps : List (ℕ × ℤ)) (t : ℕ) (y : ℤ) → last_value x (ps ++ (t, y) ∷ []) ≡ y
  last_value-snoc x [] t y = refl
  last_value-snoc x ((u, z) ∷ ps) t y = last_value-snoc z ps t y

  mark-Pointed : (c : Candle) (b : Book) → Pointed (mark s c b)
  unfolding mark
  mark-Pointed c b free =
      last_value-snoc s.config.initial_capital b.equity_curve c.timestamp _
      ∙ rw free (omega int_laws)

  pub Acted-curves :
      (c : Candle) (b : Book) {b' : Book}
      → Acted s c b b'
      → (b'.equity_curve ≡ b.equity_curve) × (b'.drawdown_curve ≡ b.drawdown_curve)
  Acted-curves c b stays = (refl, refl)
  Acted-curves c b (closes p raw reason t _ _) = (refl, refl)
  Acted-curves c b (opens d q x st g k _ _) = (refl, refl)
  Acted-curves c b (declines r _) = (refl, refl)

  -- What holds of the book after the candles seen.
  pub record Kept (seen : List Candle) (b : Book) : Type 0 where
    pub accounted : Accounted b
    pub pointed : Pointed b
    pub equity_times : times b.equity_curve ≡ map (λ c. c.timestamp) seen
    pub drawdown_times : times b.drawdown_curve ≡ map (λ c. c.timestamp) seen

  queue-Accounted : (d : DecisionResult) (b : Book) → Accounted b → Accounted (queue d b)
  unfolding queue
  queue-Accounted d b h = elim (Bool-cases (is_queued d b.position)) [
    | inl e ↦ rw e h
    | inr e ↦ rw e h
  ]

  pub queue-curves :
      (d : DecisionResult) (b : Book)
      → ((queue d b).equity_curve ≡ b.equity_curve)
        × ((queue d b).drawdown_curve ≡ b.drawdown_curve)
  unfolding queue
  queue-curves d b = elim (Bool-cases (is_queued d b.position)) [
    | inl e ↦ (rw e refl, rw e refl)
    | inr e ↦ (rw e refl, rw e refl)
  ]

  mark-times :
      (seen : List Candle) (c : Candle) (b : Book)
      → times b.equity_curve ≡ map (λ x. x.timestamp) seen
      → times b.drawdown_curve ≡ map (λ x. x.timestamp) seen
      → (times (mark s c b).equity_curve ≡ map (λ x. x.timestamp) (seen ++ c ∷ []))
        × (times (mark s c b).drawdown_curve ≡ map (λ x. x.timestamp) (seen ++ c ∷ []))
  unfolding mark
  mark-times seen c b h k = (simp (map-append, h), simp (map-append, k))

  Processed-Kept :
      (seen : List Candle) (c : Candle) (b b' : Book)
      → Kept seen b
      → Processed s (seen ++ c ∷ []) c b b'
      → Kept (seen ++ c ∷ []) b'
  unfolding mark
  Processed-Kept seen c b b' h p =
      let d = s.decision_provider (seen ++ c ∷ []) in
      let q = queue d p.held in
      let (e1, d1) = Acted-curves c b p.first in
      let (e2, d2) = Acted-curves c (unqueued p.acted) p.second in
      let (e3, d3) = queue-curves d p.held in
      let (e, k) =
        mark-times seen c q (ap times (e3 ∙ e2 ∙ e1) ∙ h.equity_times)
          (ap times (d3 ∙ d2 ∙ d1) ∙ h.drawdown_times) in
      subst (Kept (seen ++ c ∷ [])) (sym p.marked) (record {
        accounted = queue-Accounted d p.held (
            Acted-Accounted c (unqueued p.acted) p.second
              (Acted-Accounted c b p.first h.accounted));
        pointed = mark-Pointed c q;
        equity_times = e;
        drawdown_times = k;
      })

  pub loop-Kept :
      (cs : List Candle) {b : Book} → run_loop s [] cs (new_book s.config) ≡ ok b → Kept cs b
  loop-Kept cs h =
      run_loop_inv s Kept Processed-Kept [] cs (new_book s.config)
        (record {
          accounted = omega int_laws;
          pointed = λ _. refl;
          equity_times = refl;
          drawdown_times = refl;
        })
        h
