-- ===== src/Risk/Engine/Exits.antt =====
-- Exits: no lock stops them, and none goes past the position.
use mytradingsystem.Base.{
  Arithmetic, ℤ, pos, neg, abs, ◌+ℤ◌, ◌≡◌, ◌≢◌, ◌≤ℤ◌, ◌<ℤ◌, true, min_ℤ, arith, +ℤ_parts,
  eq_of_parts, sym, subst,
}
use mytradingsystem.Domain.{Side, buy, sell, reject}
use mytradingsystem.Risk.Engine.{Request, evaluate_exit, evaluate_order_risk, closing_side}

-- The prices and the capital that every evaluation needs.
pub record Priced (r : Request) : Type 0 where
  pub equity : pos 0 <ℤ r.context.equity
  pub reference : pos 0 <ℤ r.reference_price
  pub bid : pos 0 <ℤ r.context.bid
  pub ask : r.context.bid ≤ℤ r.context.ask

-- What a fill of `n` on a side does to a position.
abbrev pub after_fill : Side → ℤ → ℤ → ℤ
after_fill buy n position = position +ℤ n
after_fill sell n position = position +ℤ neg n

Priced-exit :
    (a : Arithmetic) (r : Request)
    → Priced r
    → r.intent.is_exit ≡ true
    → evaluate_order_risk a r ≡ evaluate_exit r
unfolding evaluate_order_risk
Priced-exit a r p h = ground (arith, p.equity, p.reference, p.bid, p.ask)

closing-approved :
    (r : Request)
    → pos 0 <ℤ r.intent.quantity
    → pos 0 <ℤ abs r.context.current_position_quantity
    → r.intent.side ≡ closing_side r.context.current_position_quantity
    → ((evaluate_exit r).outcome ≢ reject)
      × ((evaluate_exit r).approved_quantity
          ≡ min_ℤ r.intent.quantity (abs r.context.current_position_quantity))
unfolding evaluate_exit
closing-approved r q o s = (ground arith, ground arith)

-- Where the equity, the reference price and the bid are positive and the ask is not below the bid, an
-- exit of a positive quantity on the closing side of an open position is not refused, whatever the
-- locks and the exposures are: it is for the smaller of the quantity asked for and the position.
pub exit-closes :
    (a : Arithmetic) (r : Request)
    → Priced r
    → r.intent.is_exit ≡ true
    → pos 0 <ℤ r.intent.quantity
    → pos 0 <ℤ abs r.context.current_position_quantity
    → r.intent.side ≡ closing_side r.context.current_position_quantity
    → ((evaluate_order_risk a r).outcome ≢ reject)
      × ((evaluate_order_risk a r).approved_quantity
          ≡ min_ℤ r.intent.quantity (abs r.context.current_position_quantity))
exit-closes a r p e q o s =
    let eq = Priced-exit a r p e in
    subst
      (λ d.
        (d.outcome ≢ reject)
        × (d.approved_quantity ≡ min_ℤ r.intent.quantity (abs r.context.current_position_quantity)))
      (sym eq) (closing-approved r q o s)

exit-fits :
    (r : Request)
    → pos 0 <ℤ r.intent.quantity
    → (evaluate_exit r).outcome ≢ reject
    → (r.intent.side ≡ closing_side r.context.current_position_quantity)
      × ((evaluate_exit r).approved_quantity ≤ℤ abs r.context.current_position_quantity)
      × (pos 0 ≤ℤ (evaluate_exit r).approved_quantity)
unfolding evaluate_exit
exit-fits r q h = (ground arith, ground arith, ground arith)

fill_shrinks :
    (s : Side) (n p : ℤ)
    → s ≡ closing_side p
    → pos 0 ≤ℤ n
    → n ≤ℤ abs p
    → (abs (after_fill s n p) +ℤ n ≡ abs p)
fill_shrinks buy n p h z l =
    eq_of_parts _ _ (ground (arith, +ℤ_parts p n, +ℤ_parts (abs (p +ℤ n)) n))
fill_shrinks sell n p h z l =
    eq_of_parts _ _ (ground (arith, +ℤ_parts p (neg n), +ℤ_parts (abs (p +ℤ neg n)) n))

exit-branch :
    (a : Arithmetic) (r : Request)
    → r.intent.is_exit ≡ true
    → (evaluate_order_risk a r).outcome ≢ reject
    → evaluate_order_risk a r ≡ evaluate_exit r
unfolding evaluate_order_risk
exit-branch a r e h = ground arith

-- A fill of what an exit allows brings the position nearer to zero by exactly that quantity: it never
-- adds to the position and never turns it.
pub exit-shrinks :
    (a : Arithmetic) (r : Request)
    → r.intent.is_exit ≡ true
    → pos 0 <ℤ r.intent.quantity
    → (evaluate_order_risk a r).outcome ≢ reject
    → abs (
          after_fill r.intent.side
            (evaluate_order_risk a r).approved_quantity
            r.context.current_position_quantity)
        +ℤ (evaluate_order_risk a r).approved_quantity
      ≡ abs r.context.current_position_quantity
exit-shrinks a r e q h =
    let eq = exit-branch a r e h in
    let (side, fits, positive) = exit-fits r q (subst (λ d. d.outcome ≢ reject) eq h) in
    subst
      (λ d.
        abs (after_fill r.intent.side d.approved_quantity r.context.current_position_quantity)
          +ℤ d.approved_quantity
        ≡ abs r.context.current_position_quantity)
      (sym eq)
      (fill_shrinks r.intent.side (evaluate_exit r).approved_quantity
        r.context.current_position_quantity side positive fits)
