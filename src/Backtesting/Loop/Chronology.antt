-- ===== src/Backtesting/Loop/Chronology.antt =====
-- The order of the trades in time.
use mytradingsystem.Base.{
  List, ℕ, ◌<◌, [], ℤ, ◌++◌, ◌∷◌, ◌≡◌, ◌≤◌, arith, ok, some, >>=-ok, sym, ok_injective, ap, false,
  subst, suc, Bool-cases, raise_if-ok, ◌∙◌, any, inl, inr, not,
}
use mytradingsystem.Domain.{Candle}
use mytradingsystem.Decision.{DecisionResult}
use mytradingsystem.Backtesting.Policy.{open_candle, mixed_candles}
use mytradingsystem.Backtesting.Positions.{
  ExitReason, Trade, Position, trade_of, close_position, lift_cost, slipped, exit_action, exit_side,
  at_end_of_data,
}
use mytradingsystem.Backtesting.Loop.{
  Setup, Book, new_book, unqueued, queue, is_queued, mark, process, run_loop, finish, booked,
  last_candle, run_book, check_candles, any_not_later, any_differs,
}
use mytradingsystem.Backtesting.Loop.Steps.{
  Acted, stays, closes, opens, declines, Processed, process-Processed, run_book-ok, finish-cases,
}
use mytradingsystem.Backtesting.Loop.Times.{
  Chronicle, Timely, Chronicle-snoc, HeldSince, OverBy-le, OverBy-snoc, some_injective,
}

module _ (s : Setup) where
  close_position-times :
      (p : Position) (t : ℕ) (raw : ℤ) (reason : ExitReason) {trade : Trade}
      → close_position s.arithmetic s.cost_model s.config.slippage_bps p t raw reason ≡ ok trade
      → (trade.signal_at ≡ p.held_signal_at)
        × (trade.entered_at ≡ p.held_entered_at)
        × (trade.exited_at ≡ t)
  unfolding close_position
  close_position-times p t raw reason h =
      let price =
        slipped s.arithmetic raw (exit_action s.arithmetic p.held_direction)
          s.config.slippage_bps in
      let (cost, _, is) =
        >>=-ok
          (lift_cost (
            s.cost_model (s.arithmetic.mul price p.held_quantity)
              (exit_side s.arithmetic p.held_direction)))
          (λ x. ok (trade_of s.arithmetic p t price reason x)) h in
      let same = sym (ok_injective is) in
      (ap (λ x. x.signal_at) same, ap (λ x. x.entered_at) same, ap (λ x. x.exited_at) same)

  booked-Timely :
      (now limit : ℕ) (b : Book) (p : Position) (trade : Trade)
      → Timely now limit b
      → b.position ≡ some p
      → trade.signal_at ≡ p.held_signal_at
      → trade.entered_at ≡ p.held_entered_at
      → trade.exited_at ≡ now
      → Timely now limit (booked trade b)
  booked-Timely now limit b p trade k q signal enter exit =
      let since = k.held p q in
      record {
        chronicle = Chronicle-snoc b.trades trade k.chronicle (rw enter since.over) (record {
          signalled = omega (arith, signal, enter, since.signalled);
          lasted = omega (arith, enter, exit, since.entered);
        });
        over = OverBy-snoc now b.trades trade k.over (omega (arith, exit));
        held = λ r h. absurd (ground arith);
        queued = k.queued;
      }

  Acted-Timely :
      (c : Candle) (b : Book) {b' : Book}
      → Acted s c b b'
      → Timely c.timestamp c.timestamp b
      → Timely c.timestamp c.timestamp b'
  Acted-Timely c b stays k = k
  Acted-Timely c b (closes p raw reason t q closed) k =
      let (signal, enter, exit) = close_position-times p c.timestamp raw reason closed in
      booked-Timely c.timestamp c.timestamp b p t k q signal enter exit
  Acted-Timely c b (opens d quantity price stop target cost q queued) k = record {
    chronicle = k.chronicle;
    over = k.over;
    held = λ p h.
        subst (HeldSince c.timestamp b.trades) (some_injective h)
          (record { signalled = k.queued d queued; entered = omega arith; over = k.over });
    queued = k.queued;
  }
  Acted-Timely c b (declines r q) k = record {
    chronicle = k.chronicle;
    over = k.over;
    held = k.held;
    queued = k.queued;
  }

  queued-Timely :
      (now : ℕ) (d : DecisionResult) (b : Book)
      → d.result_timestamp ≤ now
      → Timely now now b
      → Timely now (suc now) (queue d b)
  unfolding queue
  queued-Timely now d b le k = elim (Bool-cases (is_queued d b.position)) [
    | inl e ↦ rw e (record {
      chronicle = k.chronicle;
      over = k.over;
      held = k.held;
      queued = λ x h. ground (arith, le, h);
    })
    | inr e ↦ rw e (record {
      chronicle = k.chronicle;
      over = k.over;
      held = k.held;
      queued = λ x h. omega (arith, k.queued x h);
    })
  ]

  mark-Timely :
      (now limit : ℕ) (c : Candle) (b : Book) → Timely now limit b → Timely now limit (mark s c b)
  unfolding mark
  mark-Timely now limit c b k = record {
    chronicle = k.chronicle;
    over = k.over;
    held = k.held;
    queued = k.queued;
  }

  unqueued-Timely : (now limit : ℕ) (b : Book) → Timely now limit b → Timely now limit (unqueued b)
  unqueued-Timely now limit b k = record {
    chronicle = k.chronicle;
    over = k.over;
    held = k.held;
    queued = λ d h. absurd (ground arith);
  }

  -- A decision is not dated after the last candle that it was made from.
  abbrev pub IsHonest : Type 0
  IsHonest =
      (seen : List Candle) (c : Candle)
      → (s.decision_provider (seen ++ c ∷ [])).result_timestamp ≤ c.timestamp

  Processed-Timely :
      (seen : List Candle) (c : Candle) (b b' : Book)
      → IsHonest
      → Timely c.timestamp c.timestamp b
      → Processed s (seen ++ c ∷ []) c b b'
      → Timely c.timestamp (suc c.timestamp) b'
  Processed-Timely seen c b b' honest k p =
      let d = s.decision_provider (seen ++ c ∷ []) in
      let opened = unqueued-Timely c.timestamp c.timestamp p.acted (Acted-Timely c b p.first k) in
      let held = Acted-Timely c (unqueued p.acted) p.second opened in
      subst (Timely c.timestamp (suc c.timestamp)) (sym p.marked) (
        mark-Timely c.timestamp (suc c.timestamp) c (queue d p.held)
          (queued-Timely c.timestamp d p.held (honest seen c) held))

  -- Time goes on.
  later-Timely : (m n : ℕ) (b : Book) → m < n → Timely m (suc m) b → Timely n n b
  later-Timely m n b lt k = record {
    chronicle = k.chronicle;
    over = OverBy-le m n b.trades (omega arith) k.over;
    held = λ p h.
        let since = k.held p h in
        record {
          signalled = since.signalled;
          entered = omega (arith, since.entered);
          over = since.over;
        };
    queued = λ d h. omega (arith, k.queued d h);
  }

  loop-Timely :
      (seen : List Candle) (c : Candle) (cs : List Candle) (b : Book) {b' : Book}
      → IsHonest
      → any_not_later (c ∷ cs) ≡ false
      → Timely c.timestamp c.timestamp b
      → run_loop s seen (c ∷ cs) b ≡ ok b'
      → Timely (last_candle c cs).timestamp (suc (last_candle c cs).timestamp) b'
  unfolding run_loop
  loop-Timely seen c [] b honest rising k h =
      let (b1, one, rest) =
        >>=-ok (process s (seen ++ c ∷ []) c b) (run_loop s (seen ++ c ∷ []) []) h in
      let p = process-Processed s (seen ++ c ∷ []) c b one in
      subst (Timely c.timestamp (suc c.timestamp)) (ok_injective rest)
        (Processed-Timely seen c b b1 honest k p)
  loop-Timely seen c (d ∷ ds) b honest rising k h =
      let (b1, one, rest) =
        >>=-ok (process s (seen ++ c ∷ []) c b) (run_loop s (seen ++ c ∷ []) (d ∷ ds)) h in
      let p = process-Processed s (seen ++ c ∷ []) c b one in
      let lt : c.timestamp < d.timestamp = ground arith in
      let next : any_not_later (d ∷ ds) ≡ false = ground arith in
      loop-Timely (seen ++ c ∷ []) d ds b1 honest next
        (later-Timely c.timestamp d.timestamp b1 lt (Processed-Timely seen c b b1 honest k p)) rest

  new-Timely : (now : ℕ) → Timely now now (new_book s.config)
  new-Timely now = record {
    chronicle = tt;
    over = tt;
    held = λ p h. absurd (ground arith);
    queued = λ d h. absurd (ground arith);
  }

  finish-Chronicle :
      (c : Candle) (cs : List Candle) (b : Book) {b' : Book}
      → Timely (last_candle c cs).timestamp (suc (last_candle c cs).timestamp) b
      → finish s (c ∷ cs) b ≡ ok b'
      → Chronicle b'.trades
  finish-Chronicle c cs b k h = elim (finish-cases s c cs b h) [
    | inl (q, same) ↦ subst (λ x. Chronicle x.trades) same k.chronicle
    | inr (p, trade, q, sold, is) ↦
        let t = (last_candle c cs).timestamp in
        let (signal, enter, exit) =
          close_position-times p t (last_candle c cs).close at_end_of_data sold in
        let over = booked-Timely t (suc t) b p trade k q signal enter exit in
        subst (λ x. Chronicle x.trades) is over.chronicle
  ]

  no_candles-Chronicle :
      (b0 : Book) {b : Book}
      → run_loop s [] [] (new_book s.config) ≡ ok b0
      → finish s [] b0 ≡ ok b
      → Chronicle b.trades
  unfolding run_loop finish
  no_candles-Chronicle b0 h k = subst (λ x. Chronicle x.trades) (ok_injective h ∙ ok_injective k) tt

  rising_candles : (cs : List Candle) → check_candles cs ≡ ok tt → any_not_later cs ≡ false
  unfolding check_candles
  rising_candles cs h =
      let (_, rest) = raise_if-ok (any (λ c. not c.is_closed) cs) open_candle _ h in
      let (_, last) = raise_if-ok (any_differs cs) mixed_candles _ rest in ground arith

  pub run_book-Chronicle :
      (cs : List Candle) {b : Book} → IsHonest → run_book s cs ≡ ok b → Chronicle b.trades
  run_book-Chronicle [] honest h =
      let (b0, _, looped, finished) = run_book-ok s [] h in no_candles-Chronicle b0 looped finished
  run_book-Chronicle (c ∷ cs) honest h =
      let (b0, checked, looped, finished) = run_book-ok s (c ∷ cs) h in
      finish-Chronicle c cs b0
        (loop-Timely [] c cs (new_book s.config) honest (rising_candles (c ∷ cs) checked)
          (new-Timely c.timestamp) looped)
        finished
