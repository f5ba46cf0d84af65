-- ===== src/Backtesting/Loop/Causality.antt =====
-- What is recorded of the first candles does not depend on the candles that follow.
use mytradingsystem.Base.{
  List, [], ◌∷◌, Bool-cases, subst, sym, ℤ, ◌++◌, ◌≡◌, ap, append-nil, inl, inr, ok, refl, ◌∙◌,
  append_assoc, >>=-ok, ok_injective, ℕ,
}
use mytradingsystem.Decision.{DecisionResult}
use mytradingsystem.Domain.{Candle}
use mytradingsystem.Backtesting.Positions.{Trade}
use mytradingsystem.Backtesting.Loop.{
  Setup, Book, new_book, unqueued, queue, is_queued, mark, process, run_loop, finish, booked,
  remarked, last_candle, run_book,
}
use mytradingsystem.Backtesting.Loop.Steps.{
  Acted, stays, closes, opens, declines, Processed, process-Processed, run_loop_inv, run_book-ok,
  finish-cases,
}
use mytradingsystem.Backtesting.Loop.Accounts.{Acted-curves, queue-curves}
use mytradingsystem.Backtesting.Loop.Pasts.{
  Extends, GoneOn, Remembers, Begins-refl, Begins-trans, Extends-refl, Extends-trans,
  GoneOn-Remembers, take-set_last,
}

module _ (s : Setup) where
  Acted-Extends : (c : Candle) (b : Book) {b' : Book} → Acted s c b b' → Extends b b'
  Acted-Extends c b stays = Extends-refl b
  Acted-Extends c b (closes p raw reason t _ _) = record {
    trades = (t ∷ [], refl);
    rejected = Begins-refl b.rejected;
    equity = Begins-refl b.equity_curve;
    drawdown = Begins-refl b.drawdown_curve;
  }
  Acted-Extends c b (opens d q x st g k _ _) = record {
    trades = Begins-refl b.trades;
    rejected = Begins-refl b.rejected;
    equity = Begins-refl b.equity_curve;
    drawdown = Begins-refl b.drawdown_curve;
  }
  Acted-Extends c b (declines r _) = record {
    trades = Begins-refl b.trades;
    rejected = ((c.timestamp, r.reason) ∷ [], refl);
    equity = Begins-refl b.equity_curve;
    drawdown = Begins-refl b.drawdown_curve;
  }

  unqueued-Extends : (b : Book) → Extends b (unqueued b)
  unqueued-Extends b = record {
    trades = Begins-refl b.trades;
    rejected = Begins-refl b.rejected;
    equity = Begins-refl b.equity_curve;
    drawdown = Begins-refl b.drawdown_curve;
  }

  queued-Extends : (d : DecisionResult) (b : Book) → Extends b (queue d b)
  unfolding queue
  queued-Extends d b = elim (Bool-cases (is_queued d b.position)) [
    | inr e ↦ rw e (Extends-refl b)
    | inl e ↦ rw e (record {
      trades = Begins-refl b.trades;
      rejected = Begins-refl b.rejected;
      equity = Begins-refl b.equity_curve;
      drawdown = Begins-refl b.drawdown_curve;
    })
  ]

  mark-Extends : (c : Candle) (b : Book) → Extends b (mark s c b)
  unfolding mark
  mark-Extends c b = record {
    trades = Begins-refl b.trades;
    rejected = Begins-refl b.rejected;
    equity = ((c.timestamp, _) ∷ [], refl);
    drawdown = ((c.timestamp, _) ∷ [], refl);
  }

  Processed-Extends :
      (seen : List Candle) (c : Candle) (b b' : Book) → Processed s seen c b b' → Extends b b'
  Processed-Extends seen c b b' p =
      let d = s.decision_provider seen in
      let q = queue d p.held in
      let first = Acted-Extends c b p.first in
      let second = Acted-Extends c (unqueued p.acted) p.second in
      let emptied = Extends-trans b p.acted (unqueued p.acted) first (unqueued-Extends p.acted) in
      let held = Extends-trans b (unqueued p.acted) p.held emptied second in
      let queued = Extends-trans b p.held q held (queued-Extends d p.held) in
      subst (Extends b) (sym p.marked) (Extends-trans b q (mark s c q) queued (mark-Extends c q))

  mark-points :
      (c : Candle) (b : Book)
      → (x : ℤ) × (y : ℤ) × ((mark s c b).equity_curve ≡ b.equity_curve ++ (c.timestamp, x) ∷ [])
        × ((mark s c b).drawdown_curve ≡ b.drawdown_curve ++ (c.timestamp, y) ∷ [])
  unfolding mark
  mark-points c b = (_, _, refl, refl)

  -- The points that a candle adds.
  Processed-points :
      (seen : List Candle) (c : Candle) (b b' : Book)
      → Processed s seen c b b'
      → (x : ℤ) × (y : ℤ) × (b'.equity_curve ≡ b.equity_curve ++ (c.timestamp, x) ∷ [])
        × (b'.drawdown_curve ≡ b.drawdown_curve ++ (c.timestamp, y) ∷ [])
  Processed-points seen c b b' p =
      let d = s.decision_provider seen in
      let (e1, d1) = Acted-curves s c b p.first in
      let (e2, d2) = Acted-curves s c (unqueued p.acted) p.second in
      let (e3, d3) = queue-curves s d p.held in
      let (x, y, e, k) = mark-points c (queue d p.held) in
      (
        x,
        y,
        ap (λ z. z.equity_curve) p.marked ∙ e ∙ ap (λ l. l ++ (c.timestamp, x) ∷ []) (e3 ∙ e2 ∙ e1),
        ap (λ z. z.drawdown_curve) p.marked
            ∙ k
            ∙ ap (λ l. l ++ (c.timestamp, y) ∷ []) (d3 ∙ d2 ∙ d1),
      )

  loop-Extends :
      (seen cs : List Candle) (b : Book) {b' : Book} → run_loop s seen cs b ≡ ok b' → Extends b b'
  loop-Extends seen cs b h =
      run_loop_inv s (λ _ x. Extends b x)
        (λ t c x y e p. Extends-trans b x y e (Processed-Extends (t ++ c ∷ []) c x y p)) seen cs b
        (Extends-refl b) h

module _ (s : Setup) where
  -- The last points may be set again.
  remarked-Remembers :
      (t : ℕ) (trade : Trade) (b b' : Book)
      → GoneOn b b'
      → Remembers b (remarked s t (booked trade b'))
  remarked-Remembers t trade b b' g = record {
    trades = Begins-trans b.trades b'.trades _ g.later.trades (trade ∷ [], refl);
    rejected = g.later.rejected;
    equity = rw g.equity_on (take-set_last _ b.equity_curve g.point g.points);
    drawdown = rw g.drawdown_on (take-set_last _ b.drawdown_curve g.down g.downs);
  }

  finish-Remembers :
      (cs : List Candle) (b b' : Book) {final : Book}
      → GoneOn b b'
      → finish s cs b' ≡ ok final
      → Remembers b final
  unfolding finish
  finish-Remembers [] b b' g h = subst (Remembers b) (ok_injective h) (GoneOn-Remembers b b' g)
  finish-Remembers (c ∷ cs) b b' g h = elim (finish-cases s c cs b' h) [
    | inl (_, same) ↦ subst (Remembers b) same (GoneOn-Remembers b b' g)
    | inr (p, trade, q, sold, is) ↦
        subst (Remembers b) is (remarked-Remembers (last_candle c cs).timestamp trade b b' g)
  ]

  run_loop-append :
      (seen cs ds : List Candle) (b : Book) {b' : Book}
      → run_loop s seen (cs ++ ds) b ≡ ok b'
      → (b1 : Book) × (run_loop s seen cs b ≡ ok b1) × (run_loop s (seen ++ cs) ds b1 ≡ ok b')
  unfolding run_loop
  run_loop-append seen [] ds b {b'} h =
      (b, refl, subst (λ l. run_loop s l ds b ≡ ok b') (sym (append-nil seen)) h)
  run_loop-append seen (c ∷ cs) ds b {b'} h =
      let (b0, one, rest) =
        >>=-ok (process s (seen ++ c ∷ []) c b) (run_loop s (seen ++ c ∷ []) (cs ++ ds)) h in
      let (b1, first, second) = run_loop-append (seen ++ c ∷ []) cs ds b0 rest in
      (
        b1,
        rw one first,
        subst (λ l. run_loop s l ds b1 ≡ ok b') (append_assoc seen (c ∷ []) cs) second,
      )

  loop-GoneOn :
      (seen : List Candle) (d : Candle) (ds : List Candle) (b : Book) {b' : Book}
      → run_loop s seen (d ∷ ds) b ≡ ok b'
      → GoneOn b b'
  unfolding run_loop
  loop-GoneOn seen d ds b {b'} h =
      let (b1, one, rest) =
        >>=-ok (process s (seen ++ d ∷ []) d b) (run_loop s (seen ++ d ∷ []) ds) h in
      let p = process-Processed s (seen ++ d ∷ []) d b one in
      let (x, y, e, k) = Processed-points s (seen ++ d ∷ []) d b b1 p in
      let later = loop-Extends s (seen ++ d ∷ []) ds b1 rest in
      record {
        later = Extends-trans b b1 b' (Processed-Extends s (seen ++ d ∷ []) d b b1 p) later;
        point = (d.timestamp, x);
        points = later.equity.0;
        equity_on =
            later.equity.1
            ∙ ap (λ l. l ++ later.equity.0) e
            ∙ append_assoc b.equity_curve ((d.timestamp, x) ∷ []) later.equity.0;
        down = (d.timestamp, y);
        downs = later.drawdown.0;
        drawdown_on =
            later.drawdown.1
            ∙ ap (λ l. l ++ later.drawdown.0) k
            ∙ append_assoc b.drawdown_curve ((d.timestamp, y) ∷ []) later.drawdown.0;
      }

  pub run_book-Remembers :
      (cs : List Candle) (d : Candle) (ds : List Candle) {final : Book}
      → run_book s (cs ++ d ∷ ds) ≡ ok final
      → (b : Book) × (run_loop s [] cs (new_book s.config) ≡ ok b) × Remembers b final
  run_book-Remembers cs d ds h =
      let (b0, _, looped, finished) = run_book-ok s (cs ++ d ∷ ds) h in
      let (b, first, second) = run_loop-append [] cs (d ∷ ds) (new_book s.config) looped in
      (b, first, finish-Remembers (cs ++ d ∷ ds) b b0 (loop-GoneOn cs d ds b second) finished)
