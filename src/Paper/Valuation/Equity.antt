-- ===== src/Paper/Valuation/Equity.antt =====
-- What `mark_to_market` stores: the sums of its marks, and a peak that never falls.
use mytradingsystem.Paper.Valuation.Marks.{Adds, Marks, mark_all-Adds, realized_of}
use mytradingsystem.Base.{
  Arithmetic, ℕ, ℤ, pos, ◌+ℤ◌, ◌-ℤ◌, int_laws, abs, max_ℤ, ◌≡◌, ◌≤ℤ◌, ok, some, none, arith, List,
  [], ◌∷◌, ◌++◌, Option, DateTime, instant, Dict, lookup, nat_keys, lookup-insert_self, inl, inr,
  Option-cases, Result-cases, Bool-cases, refl, ap, sym, ◌∙◌, subst, is_naive, ◌==ℤ◌, ok_injective,
  leb_ℤ,
}
use mytradingsystem.Paper.Tables.{Ledger, Position, Tables}
use mytradingsystem.Paper.Valuation.{
  PositionMark, Totals, Portfolio, zero_totals, positions_of, marked, mark_one, mark_open, mark_all,
  store_snapshot, mark_to_market,
}

-- The market value and the open result of a list of marks.
abbrev pub value_of : Arithmetic → List PositionMark → ℤ
value_of a [] = pos 0
value_of a (m ∷ ms) = value_of a ms +ℤ a.mul m.quantity m.market_price

abbrev pub pnl_of : Arithmetic → List PositionMark → ℤ
pnl_of a [] = pos 0
pnl_of a (m ∷ ms) = pnl_of a ms +ℤ a.mul (m.market_price -ℤ m.average_price) m.quantity

value_of-snoc :
    (a : Arithmetic) (ms : List PositionMark) (m : PositionMark)
    → value_of a (ms ++ m ∷ []) ≡ value_of a ms +ℤ a.mul m.quantity m.market_price
value_of-snoc a [] m = refl
value_of-snoc a (n ∷ ms) m = rw (value_of-snoc a ms m) (omega int_laws)

pnl_of-snoc :
    (a : Arithmetic) (ms : List PositionMark) (m : PositionMark)
    → pnl_of a (ms ++ m ∷ []) ≡ pnl_of a ms +ℤ a.mul (m.market_price -ℤ m.average_price) m.quantity
pnl_of-snoc a [] m = refl
pnl_of-snoc a (n ∷ ms) m = rw (pnl_of-snoc a ms m) (omega int_laws)

abbrev pub gross_of : Arithmetic → List PositionMark → ℤ
gross_of a [] = pos 0
gross_of a (m ∷ ms) = gross_of a ms +ℤ abs (a.mul m.quantity m.market_price)

gross_of-snoc :
    (a : Arithmetic) (ms : List PositionMark) (m : PositionMark)
    → gross_of a (ms ++ m ∷ []) ≡ gross_of a ms +ℤ abs (a.mul m.quantity m.market_price)
gross_of-snoc a [] m = refl
gross_of-snoc a (n ∷ ms) m = rw (gross_of-snoc a ms m) (omega int_laws)

record TotalsAgree (a : Arithmetic) (t : Totals) : Type 0 where
  value : t.market_value ≡ value_of a t.marks
  pnl : t.unrealized ≡ pnl_of a t.marks
  net : t.net ≡ t.market_value
  gross : t.gross ≡ gross_of a t.marks

marked-TotalsAgree :
    (a : Arithmetic) (i : ℕ) (p : Position) (price : ℤ) (t : Totals)
    → TotalsAgree a t
    → TotalsAgree a (marked a i p price t)
marked-TotalsAgree a i p price t v =
    let m : PositionMark = record {
      instrument_id = i;
      quantity = p.quantity;
      average_price = p.average_price;
      market_price = price;
      realized_pnl = p.realized_pnl;
      unrealized_pnl = a.mul (price -ℤ p.average_price) p.quantity;
    } in
    record {
      value = ap (λ n. n +ℤ a.mul p.quantity price) v.value ∙ sym (value_of-snoc a t.marks m);
      pnl =
          ap (λ n. n +ℤ a.mul (price -ℤ p.average_price) p.quantity) v.pnl
          ∙ sym (pnl_of-snoc a t.marks m);
      net = ap (λ n. n +ℤ a.mul p.quantity price) v.net;
      gross = ap (λ n. n +ℤ abs (a.mul p.quantity price)) v.gross ∙ sym (gross_of-snoc a t.marks m);
    }

mark_open-TotalsAgree :
    (a : Arithmetic) (i : ℕ) (p : Position) (o : Option ℤ) (t : Totals) {t' : Totals}
    → mark_open a i p o t ≡ ok t'
    → TotalsAgree a t
    → TotalsAgree a t'
mark_open-TotalsAgree a i p none t h v = absurd (ground arith)
mark_open-TotalsAgree a i p (some price) t h v = elim (Bool-cases (leb_ℤ price (pos 0))) [
  | inl low ↦ absurd (ground arith)
  | inr high ↦
      subst (TotalsAgree a) (ok_injective (rw high at h)) (marked-TotalsAgree a i p price t v)
]

mark_one-TotalsAgree :
    (a : Arithmetic) (prices : Dict ℕ ℤ) (i : ℕ) (p : Position) (t : Totals) {t' : Totals}
    → mark_one a prices i p t ≡ ok t'
    → TotalsAgree a t
    → TotalsAgree a t'
unfolding mark_one
mark_one-TotalsAgree a prices i p t h v = elim (Bool-cases (p.quantity ==ℤ pos 0)) [
  | inl flat ↦
      subst (TotalsAgree a) (ok_injective (rw flat at h))
        (record { value = v.value; pnl = v.pnl; net = v.net; gross = v.gross })
  | inr active ↦ mark_open-TotalsAgree a i p (lookup i prices) t (rw active at h) v
]

mark_all-TotalsAgree :
    (a : Arithmetic) (prices : Dict ℕ ℤ) (ps : List (ℕ × Position)) (t : Totals) {t' : Totals}
    → mark_all a prices ps t ≡ ok t'
    → TotalsAgree a t
    → TotalsAgree a t'
unfolding mark_all
mark_all-TotalsAgree a prices [] t h v = subst (TotalsAgree a) (ok_injective h) v
mark_all-TotalsAgree a prices ((i, p) ∷ ps) t h v = elim (Result-cases (mark_one a prices i p t)) [
  | inr (x, q) ↦ absurd (ground arith)
  | inl (u, q) ↦
      mark_all-TotalsAgree a prices ps u (rw q at h) (mark_one-TotalsAgree a prices i p t q v)
]

-- A call that returned, taken apart.
pub record Valued (a : Arithmetic) (account : ℕ) (prices : Dict ℕ ℤ) (p : Portfolio)
    (db db' : Tables) : Type 0 where
  pub before : Ledger
  pub after : Ledger
  pub had : lookup account db.ledgers ≡ some before
  pub has : lookup account db'.ledgers ≡ some after
  pub same_cash :
      (after.cash_balance ≡ before.cash_balance) × (after.initial_cash ≡ before.initial_cash)
  pub marks : Marks prices (positions_of account db.positions) p.positions
  pub cash : p.snapshot.cash ≡ before.cash_balance
  pub equity : p.snapshot.equity ≡ before.cash_balance +ℤ value_of a p.positions
  pub realized : p.snapshot.realized_pnl ≡ realized_of (positions_of account db.positions)
  pub pnl : p.snapshot.unrealized_pnl ≡ pnl_of a p.positions
  pub net : p.snapshot.net_exposure ≡ value_of a p.positions
  pub gross : p.snapshot.gross_exposure ≡ gross_of a p.positions
  pub peak_keeps : before.peak_equity ≤ℤ after.peak_equity
  pub peak_above : p.snapshot.equity ≤ℤ after.peak_equity
  pub trades_nothing : (db'.orders ≡ db.orders) × (db'.positions ≡ db.positions)

from_zero : (x : ℤ) → pos 0 +ℤ x ≡ x
from_zero x = omega int_laws

store-Valued :
    (a : Arithmetic) (account time : ℕ) (prices : Dict ℕ ℤ) (ledger : Ledger) (t : Totals)
    (db : Tables)
    → lookup account db.ledgers ≡ some ledger
    → TotalsAgree a t
    → Adds prices (positions_of account db.positions) zero_totals t
    → Valued a account prices
        (store_snapshot a account time ledger t db).0
        db
        (store_snapshot a account time ledger t db).1
unfolding store_snapshot
store-Valued a account time prices ledger t db q v k =
    let peak = max_ℤ ledger.peak_equity (ledger.cash_balance +ℤ t.market_value) in
    record {
      before = ledger;
      after = record ledger { peak_equity = peak };
      had = q;
      has = lookup-insert_self account (record ledger { peak_equity = peak }) db.ledgers;
      same_cash = (refl, refl);
      marks = subst (Marks prices (positions_of account db.positions)) (sym k.marks) k.marked;
      cash = refl;
      equity = ap (λ n. ledger.cash_balance +ℤ n) v.value;
      realized = k.realized ∙ from_zero (realized_of (positions_of account db.positions));
      pnl = v.pnl;
      net = v.net ∙ v.value;
      gross = v.gross;
      peak_keeps = ground arith;
      peak_above = ground arith;
      trades_nothing = (refl, refl);
    }

zero-TotalsAgree : (a : Arithmetic) → TotalsAgree a zero_totals
zero-TotalsAgree a = record { value = refl; pnl = refl; net = refl; gross = refl }

-- A valuation that returned has one mark for each open position of the account, with the position's
-- quantity and at a positive price given for its instrument, and no other mark. Its equity is the cash
-- and the market value of the marks, its net and gross exposure are the sums of those values and of
-- their sizes, its open result is the marks' and its realized result that of all positions; the peak
-- is not below the equity nor below the peak before, and nothing is traded.
pub mark-Valued :
    (a : Arithmetic) (account : ℕ) (prices : Dict ℕ ℤ) (at : DateTime) (db : Tables) {p : Portfolio}
    {db' : Tables}
    → mark_to_market a account prices at db ≡ (ok p, db')
    → Valued a account prices p db db'
unfolding mark_to_market
mark-Valued a account prices at db {p} {db'} h = elim (Bool-cases (is_naive at)) [
  | inl bad ↦ absurd (ground arith)
  | inr timed ↦ elim (Option-cases (lookup account db.ledgers)) [
    | inl q ↦ absurd (ground arith)
    | inr (ledger, q) ↦
        elim (Result-cases (mark_all a prices (positions_of account db.positions) zero_totals)) [
          | inr (x, m) ↦ absurd (ground arith)
          | inl (t, m) ↦
              let stored =
                store-Valued a account (instant at) prices ledger t db q
                  (mark_all-TotalsAgree a prices (positions_of account db.positions) zero_totals m
                    (zero-TotalsAgree a))
                  (mark_all-Adds a prices (positions_of account db.positions) zero_totals m) in
              let portfolio : (store_snapshot a account (instant at) ledger t db).0 ≡ p =
                ground arith in
              let table : (store_snapshot a account (instant at) ledger t db).1 ≡ db' =
                ground arith in
              subst (λ x. Valued a account prices x db db') portfolio
                (subst
                  (Valued a account prices (store_snapshot a account (instant at) ledger t db).0 db)
                  table stored)
        ]
  ]
]
