-- ===== src/Backtesting/Loop/Ending.antt =====
-- The accounts after the end of the data.
use mytradingsystem.Base.{
  List, ℤ, ℕ, [], ◌∷◌, ◌≡◌, map, refl, ap, cons_injective, arith, none, ok, sym, ◌+ℤ◌, inl, inr,
  ◌∙◌, ok_injective, subst, int_laws,
}
use mytradingsystem.Domain.{Candle}
use mytradingsystem.Backtesting.Positions.{Trade}
use mytradingsystem.Backtesting.Loop.{
  Setup, Book, new_book, booked, run_loop, set_last, remarked, last_candle, finish, run_book,
}
use mytradingsystem.Backtesting.Loop.Steps.{run_book-ok, finish-cases}
use mytradingsystem.Backtesting.Loop.Accounts.{times, Accounted, Kept, loop-Kept, booked-Accounted}
use mytradingsystem.Backtesting.Metrics.{last_value}

set_last-times :
    (c : Candle) (cs : List Candle) (ps : List (ℕ × ℤ)) (x : ℤ)
    → times ps ≡ map (λ d. d.timestamp) (c ∷ cs)
    → times (set_last ((last_candle c cs).timestamp, x) ps) ≡ times ps
set_last-times c cs [] x h = refl
set_last-times c [] ((t, y) ∷ []) x h = sym h
set_last-times c (d ∷ ds) ((t, y) ∷ []) x h = absurd (ground arith)
set_last-times c [] ((t, y) ∷ (u, z) ∷ ps) x h = absurd (ground arith)
set_last-times c (d ∷ ds) ((t, y) ∷ (u, z) ∷ ps) x h =
    ap (λ ts. t ∷ ts) (set_last-times d ds ((u, z) ∷ ps) x (cons_injective h).1)

last_value-set_last :
    (initial : ℤ) (p : ℕ × ℤ) (q : ℕ × ℤ) (ps : List (ℕ × ℤ))
    → last_value initial (set_last p (q ∷ ps)) ≡ p.1
last_value-set_last initial p (t, y) [] = refl
last_value-set_last initial p (t, y) ((u, z) ∷ ps) = last_value-set_last y p (u, z) ps

last_value-remarked :
    (initial : ℤ) (p : ℕ × ℤ) (c : Candle) (cs : List Candle) (ps : List (ℕ × ℤ))
    → times ps ≡ map (λ d. d.timestamp) (c ∷ cs)
    → last_value initial (set_last p ps) ≡ p.1
last_value-remarked initial p c cs [] h = absurd (ground arith)
last_value-remarked initial p c cs (q ∷ ps) h = last_value-set_last initial p q ps

module _ (s : Setup) where
  -- What holds of the book that a run ends with.
  pub record Closed (cs : List Candle) (b : Book) : Type 0 where
    pub flat : b.position ≡ none
    pub accounted : Accounted s b
    pub ends_at : last_value s.config.initial_capital b.equity_curve ≡ b.equity
    pub equity_times : times b.equity_curve ≡ map (λ c. c.timestamp) cs
    pub drawdown_times : times b.drawdown_curve ≡ map (λ c. c.timestamp) cs

  remarked-Closed :
      (c : Candle) (cs : List Candle) (b : Book) (trade : Trade)
      → Kept s (c ∷ cs) b
      → Closed (c ∷ cs) (remarked s (last_candle c cs).timestamp (booked trade b))
  remarked-Closed c cs b trade k =
      let t = (last_candle c cs).timestamp in
      record {
        flat = refl;
        accounted = booked-Accounted s trade b k.accounted;
        ends_at =
            last_value-remarked s.config.initial_capital (t, b.equity +ℤ trade.net_pnl) c cs
              b.equity_curve k.equity_times;
        equity_times = set_last-times c cs b.equity_curve _ k.equity_times ∙ k.equity_times;
        drawdown_times = set_last-times c cs b.drawdown_curve _ k.drawdown_times ∙ k.drawdown_times;
      }

  finish-Closed :
      (c : Candle) (cs : List Candle) (b : Book) {b' : Book}
      → Kept s (c ∷ cs) b
      → finish s (c ∷ cs) b ≡ ok b'
      → Closed (c ∷ cs) b'
  finish-Closed c cs b k h = elim (finish-cases s c cs b h) [
    | inl (q, same) ↦ subst (Closed (c ∷ cs)) same (record {
      flat = q;
      accounted = k.accounted;
      ends_at = k.pointed q;
      equity_times = k.equity_times;
      drawdown_times = k.drawdown_times;
    })
    | inr (p, trade, q, sold, is) ↦ subst (Closed (c ∷ cs)) is (remarked-Closed c cs b trade k)
  ]

  no_candles-Closed :
      (b0 : Book) {b : Book}
      → run_loop s [] [] (new_book s.config) ≡ ok b0
      → finish s [] b0 ≡ ok b
      → Closed [] b
  unfolding run_loop finish
  no_candles-Closed b0 h k = subst (Closed []) (ok_injective h ∙ ok_injective k) (record {
    flat = refl;
    accounted = omega int_laws;
    ends_at = refl;
    equity_times = refl;
    drawdown_times = refl;
  })

  pub run_book-Closed : (cs : List Candle) {b : Book} → run_book s cs ≡ ok b → Closed cs b
  run_book-Closed [] h =
      let (b0, _, looped, finished) = run_book-ok s [] h in no_candles-Closed b0 looped finished
  run_book-Closed (c ∷ cs) h =
      let (b0, _, looped, finished) = run_book-ok s (c ∷ cs) h in
      finish-Closed c cs b0 (loop-Kept s (c ∷ cs) looped) finished
