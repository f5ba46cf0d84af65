-- ===== src/Paper/Columns.antt =====
-- packages/database/models.py: the rows of the paper accounts as they are read back from their columns.
-- What a column keeps of a value is a parameter.
use mytradingsystem.Base.{ℤ, map, map_values, All, ◌≡◌}
use mytradingsystem.Paper.Tables.{PaperOrder, PaperFill, Position, Ledger, PnlSnapshot, Tables}

-- What a `Numeric` column keeps of a value, by its scale.
pub record Columns : Type 0 where
  pub eight : ℤ → ℤ
  pub twelve : ℤ → ℤ

abbrev pub read_order : Columns → PaperOrder → PaperOrder
read_order c o = record o {
  quantity = c.eight o.quantity;
  filled_quantity = c.eight o.filled_quantity;
  average_price = c.eight o.average_price;
  charges = c.eight o.charges;
}

abbrev pub read_fill : Columns → PaperFill → PaperFill
read_fill c f = record f {
  fill_quantity = c.eight f.fill_quantity;
  price = c.eight f.price;
  fill_charges = c.eight f.fill_charges;
}

abbrev pub read_position : Columns → Position → Position
read_position c p = record {
  quantity = c.eight p.quantity;
  average_price = c.eight p.average_price;
  realized_pnl = c.eight p.realized_pnl;
}

abbrev pub read_ledger : Columns → Ledger → Ledger
read_ledger c l = record {
  initial_cash = c.eight l.initial_cash;
  cash_balance = c.eight l.cash_balance;
  peak_equity = c.eight l.peak_equity;
}

abbrev pub read_snapshot : Columns → PnlSnapshot → PnlSnapshot
read_snapshot c s = record s {
  cash = c.eight s.cash;
  equity = c.eight s.equity;
  realized_pnl = c.eight s.realized_pnl;
  unrealized_pnl = c.eight s.unrealized_pnl;
  gross_exposure = c.eight s.gross_exposure;
  net_exposure = c.eight s.net_exposure;
  drawdown = c.twelve s.drawdown;
}

abbrev pub reread : Columns → Tables → Tables
reread c db = record db {
  orders = map (read_order c) db.orders;
  fills = map (read_fill c) db.fills;
  positions = map_values (read_position c) db.positions;
  ledgers = map_values (read_ledger c) db.ledgers;
  snapshots = map (read_snapshot c) db.snapshots;
}

-- The numbers of an order, the cash of a ledger and the quantity of a position fit their columns.
abbrev pub OrderFits : Columns → PaperOrder → Type 0
OrderFits c o =
    (c.eight o.quantity ≡ o.quantity)
    × (c.eight o.filled_quantity ≡ o.filled_quantity)
    × (c.eight o.average_price ≡ o.average_price)
    × (c.eight o.charges ≡ o.charges)

abbrev pub LedgerFits : Columns → Ledger → Type 0
LedgerFits c l =
    (c.eight l.initial_cash ≡ l.initial_cash) × (c.eight l.cash_balance ≡ l.cash_balance)

abbrev pub PositionFits : Columns → Position → Type 0
PositionFits c p = c.eight p.quantity ≡ p.quantity

pub record Fits (c : Columns) (db : Tables) : Type 0 where
  pub orders_fit : All (OrderFits c) db.orders
  pub ledgers_fit : All (λ e. LedgerFits c e.1) db.ledgers
  pub positions_fit : All (λ e. PositionFits c e.1) db.positions
