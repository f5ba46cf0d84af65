-- ===== src/Paper/Valuation.antt =====
-- packages/paper_trading/broker.py: `mark_to_market`.
pub mod Marks
pub mod Equity
use mytradingsystem.Paper.Tables.{
  PaperError, naive_time, no_ledger, price_required, Position, Ledger, PnlSnapshot, Tables,
}
use mytradingsystem.Base.{
  Arithmetic, Bool, ℕ, ℤ, pos, ◌+ℤ◌, ◌-ℤ◌, abs, max_ℤ, ltb_ℤ, leb_ℤ, ◌==ℤ◌, ◌==◌, List, [], ◌∷◌,
  ◌++◌, Option, none, some, Dict, lookup, insert, nat_keys, DateTime, is_naive, instant, Result, ok,
  err, ◌>>=◌, if◌then◌else◌,
}

pub record PositionMark : Type 0 where
  pub instrument_id : ℕ
  pub quantity : ℤ
  pub average_price : ℤ
  pub market_price : ℤ
  pub realized_pnl : ℤ
  pub unrealized_pnl : ℤ

-- The sums that the loop keeps, and its marks.
pub record Totals : Type 0 where
  pub market_value : ℤ
  pub realized : ℤ
  pub unrealized : ℤ
  pub gross : ℤ
  pub net : ℤ
  pub marks : List PositionMark

-- A snapshot with its marks.
pub record Portfolio : Type 0 where
  pub snapshot : PnlSnapshot
  pub positions : List PositionMark

abbrev pub zero_totals : Totals
zero_totals = record {
  market_value = pos 0;
  realized = pos 0;
  unrealized = pos 0;
  gross = pos 0;
  net = pos 0;
  marks = [];
}

-- The positions of an account, with their instruments.
abbrev pub positions_of : ℕ → Dict (ℕ × ℕ) Position → List (ℕ × Position)
positions_of account [] = []
positions_of account (((owner, instrument), p) ∷ ps) =
    let rest = positions_of account ps in if owner == account then (instrument, p) ∷ rest else rest

abbrev pub marked : Arithmetic → ℕ → Position → ℤ → Totals → Totals
marked a instrument p price t =
    let value = a.mul p.quantity price in
    let pnl = a.mul (price -ℤ p.average_price) p.quantity in
    record {
      market_value = t.market_value +ℤ value;
      realized = t.realized +ℤ p.realized_pnl;
      unrealized = t.unrealized +ℤ pnl;
      gross = t.gross +ℤ abs value;
      net = t.net +ℤ value;
      marks =
          t.marks
          ++ record {
            instrument_id = instrument;
            quantity = p.quantity;
            average_price = p.average_price;
            market_price = price;
            realized_pnl = p.realized_pnl;
            unrealized_pnl = pnl;
          }
            ∷ [];
    }

-- An open position at the price that was given, if it is one.
abbrev pub mark_open : Arithmetic → ℕ → Position → Option ℤ → Totals → Result PaperError Totals
mark_open a instrument p none t = err (price_required instrument)
mark_open a instrument p (some price) t =
    if leb_ℤ price (pos 0)
    then err (price_required instrument)
    else ok (marked a instrument p price t)

-- The body of the loop.
unfoldable pub mark_one : Arithmetic → Dict ℕ ℤ → ℕ → Position → Totals → Result PaperError Totals
mark_one a prices instrument p t =
    if p.quantity ==ℤ pos 0
    then ok (record t { realized = t.realized +ℤ p.realized_pnl })
    else mark_open a instrument p (lookup instrument prices) t

unfoldable pub mark_all :
    Arithmetic → Dict ℕ ℤ → List (ℕ × Position) → Totals → Result PaperError Totals
mark_all a prices [] t = ok t
mark_all a prices ((instrument, p) ∷ ps) t =
    mark_one a prices instrument p t >>= λ t'. mark_all a prices ps t'

abbrev pub drawdown_of : Arithmetic → ℤ → ℤ → ℤ
drawdown_of a peak equity = if ltb_ℤ (pos 0) peak then a.div (peak -ℤ equity) peak else pos 0

abbrev pub snapshot_of : Arithmetic → ℕ → ℕ → Ledger → Totals → PnlSnapshot
snapshot_of a account time ledger t =
    let equity = ledger.cash_balance +ℤ t.market_value in
    let peak = max_ℤ ledger.peak_equity equity in
    record {
      account_id = account;
      occurred_at = time;
      cash = ledger.cash_balance;
      equity = equity;
      realized_pnl = t.realized;
      unrealized_pnl = t.unrealized;
      gross_exposure = t.gross;
      net_exposure = t.net;
      drawdown = drawdown_of a peak equity;
    }

-- From the sums to the stored snapshot.
unfoldable pub store_snapshot : Arithmetic → ℕ → ℕ → Ledger → Totals → Tables → Portfolio × Tables
store_snapshot a account time ledger t db =
    let s = snapshot_of a account time ledger t in
    (
      record { snapshot = s; positions = t.marks },
      record db {
        ledgers =
            insert account (record ledger { peak_equity = max_ℤ ledger.peak_equity s.equity })
              db.ledgers;
        snapshots = s ∷ db.snapshots;
      },
    )

unfoldable pub mark_to_market :
    Arithmetic → ℕ → Dict ℕ ℤ → DateTime → Tables → Result PaperError Portfolio × Tables
mark_to_market a account prices at db =
    if is_naive at then (err naive_time, db) else elim (lookup account db.ledgers) [
      | none ↦ (err no_ledger, db)
      | some ledger ↦ elim (mark_all a prices (positions_of account db.positions) zero_totals) [
        | err x ↦ (err x, db)
        | ok t ↦ let (p, db') = store_snapshot a account (instant at) ledger t db in (ok p, db')
      ]
    ]
