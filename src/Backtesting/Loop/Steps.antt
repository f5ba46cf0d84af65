-- ===== src/Backtesting/Loop/Steps.antt =====
-- What a candle does to the book, as a relation, and induction along the loop.
use mytradingsystem.Base.{
  Option, ℤ, List, ◌≡◌, none, some, ok, >>=-ok, Bool-cases, [], ◌∷◌, inl, inr, subst, ok_injective,
  Option-cases, ◌++◌, ◌>>=◌, append-nil, arith, sym, append_assoc, refl, ℕ, ◌⊎◌, ap, ◌∙◌,
}
use mytradingsystem.Domain.{Candle}
use mytradingsystem.Decision.{DecisionResult, is_entry}
use mytradingsystem.Backtesting.Policy.{PolicyDecision}
use mytradingsystem.Backtesting.Positions.{
  ExitReason, Trade, Position, close_position, intrabar_exit, lift_cost, at_end_of_data,
}
use mytradingsystem.Backtesting.Loop.{
  Setup, Book, booked, opened, turned_down, unqueued, close_book, entered, enter_with, enter,
  execute_pending, exit_at, at_open, within, queue, mark, process, run_loop, finish, is_exit,
  entry_side, run_book, check_candles, new_book, last_candle, remarked,
}

-- An action in the book at a candle. It either keeps the book, closes its position, fills the queued
-- entry or turns it down.
pub data Acted (s : Setup) (c : Candle) (b : Book) : Book → Type 0 where
  stays : Acted s c b b
  closes :
      (p : Position) (raw : ℤ) (reason : ExitReason) (t : Trade)
      → b.position ≡ some p
      → close_position s.arithmetic s.cost_model s.config.slippage_bps p c.timestamp raw reason
        ≡ ok t
      → Acted s c b (booked t b)
  opens :
      (d : DecisionResult) (quantity price stop target cost : ℤ)
      → b.position ≡ none
      → b.pending ≡ some d
      → Acted s c b
          (record b { position = some (opened s d c.timestamp quantity price stop target cost) })
  declines : (r : PolicyDecision) → b.position ≡ none → Acted s c b (turned_down s c.timestamp r b)

module _ (s : Setup) where
  pub close_book-Acted :
      (c : Candle) (p : Position) (raw : ℤ) (reason : ExitReason) (b : Book) {b' : Book}
      → b.position ≡ some p
      → close_book s p c.timestamp raw reason b ≡ ok b'
      → Acted s c b b'
  unfolding close_book
  close_book-Acted c p raw reason b held h =
      let (t, closed, is) =
        >>=-ok
          (close_position s.arithmetic s.cost_model s.config.slippage_bps p c.timestamp raw reason)
          (λ trade. ok (booked trade b)) h in
      subst (Acted s c b) (ok_injective is) (closes p raw reason t held closed)

  entered-Acted :
      (c : Candle) (d : DecisionResult) (price : ℤ) (r : PolicyDecision) (stop target : ℤ)
      (b : Book) {b' : Book}
      → b.position ≡ none
      → b.pending ≡ some d
      → entered s d c.timestamp price r stop target b ≡ ok b'
      → Acted s c b b'
  entered-Acted c d price r stop target b free queued h =
      let (cost, _, is) =
        >>=-ok
          (lift_cost
            (s.cost_model (s.arithmetic.mul price r.quantity) (entry_side d.result_action)))
          (λ cost. ok (record b {
            position = some (opened s d c.timestamp r.quantity price stop target cost);
          }))
          h in
      subst (Acted s c b) (ok_injective is) (opens d r.quantity price stop target cost free queued)

  enter_with-Acted :
      (c : Candle) (d : DecisionResult) (price : ℤ) (r : PolicyDecision) (o : Option ℤ)
      (ts : List ℤ) (b : Book) {b' : Book}
      → b.position ≡ none
      → b.pending ≡ some d
      → enter_with s d c.timestamp price r o ts b ≡ ok b'
      → Acted s c b b'
  enter_with-Acted c d price r (some stop) (target ∷ ts) b free queued h =
      elim (Bool-cases r.is_approved) [
        | inr e ↦ subst (Acted s c b) (ok_injective (rw e at h)) (declines r free)
        | inl e ↦ entered-Acted c d price r stop target b free queued (rw e at h)
      ]
  enter_with-Acted c d price r none ts b free queued h =
      subst (Acted s c b) (ok_injective h) (declines r free)
  enter_with-Acted c d price r (some stop) [] b free queued h =
      subst (Acted s c b) (ok_injective h) (declines r free)

  execute_pending-Acted :
      (d : DecisionResult) (c : Candle) (o : Option Position) (b : Book) {b' : Book}
      → b.position ≡ o
      → b.pending ≡ some d
      → execute_pending s d c o b ≡ ok b'
      → Acted s c b b'
  unfolding execute_pending enter
  execute_pending-Acted d c (some p) b held queued h = elim (Bool-cases (is_exit d.result_action)) [
    | inl e ↦ close_book-Acted c p c.open_price _ b held (rw e at h)
    | inr e ↦ subst (Acted s c b) (ok_injective (rw e at h)) stays
  ]
  execute_pending-Acted d c none b free queued h = elim (Bool-cases (is_entry d.result_action)) [
    | inl e ↦ enter_with-Acted c d _ _ d.stop d.targets b free queued (rw e at h)
    | inr e ↦ subst (Acted s c b) (ok_injective (rw e at h)) stays
  ]

  -- What `at_open` leaves, but for the queue, which it empties.
  at_open-Acted :
      (c : Candle) (b : Book) {b' : Book}
      → at_open s c b ≡ ok b'
      → (b0 : Book) × Acted s c b b0 × (b' ≡ unqueued b0)
  unfolding at_open
  at_open-Acted c b h = elim (Option-cases b.pending) [
    | inl q ↦ (b, stays, ground (arith, q))
    | inr (d, q) ↦
        let (b0, acted, is) =
          >>=-ok (execute_pending s d c b.position b) (λ x. ok (unqueued x)) (ground (arith, q)) in
        (b0, execute_pending-Acted d c b.position b refl q acted, sym (ok_injective is))
  ]

  exit_at-Acted :
      (c : Candle) (p : Position) (o : Option (ℤ × ExitReason)) (b : Book) {b' : Book}
      → b.position ≡ some p
      → exit_at s p c o b ≡ ok b'
      → Acted s c b b'
  exit_at-Acted c p none b held h = subst (Acted s c b) (ok_injective h) stays
  exit_at-Acted c p (some (raw, reason)) b held h = close_book-Acted c p raw reason b held h

  within-Acted : (c : Candle) (b : Book) {b' : Book} → within s c b ≡ ok b' → Acted s c b b'
  unfolding within
  within-Acted c b {b'} h = elim (Option-cases b.position) [
    | inl q ↦ let same : b ≡ b' = ground (arith, q) in subst (Acted s c b) same stays
    | inr (p, q) ↦ exit_at-Acted c p (intrabar_exit p c) b q (ground (arith, q))
  ]

  -- A candle acts twice, at its open and within, and then queues and marks.
  pub record Processed (seen : List Candle) (c : Candle) (b b' : Book) : Type 0 where
    pub acted : Book
    pub held : Book
    pub first : Acted s c b acted
    pub second : Acted s c (unqueued acted) held
    pub marked : b' ≡ mark s c (queue (s.decision_provider seen) held)

  pub process-Processed :
      (seen : List Candle) (c : Candle) (b : Book) {b' : Book}
      → process s seen c b ≡ ok b'
      → Processed seen c b b'
  unfolding process
  process-Processed seen c b h =
      let (b1, at, rest) =
        >>=-ok (at_open s c b)
          (λ x. within s c x >>= λ y. ok (mark s c (queue (s.decision_provider seen) y))) h in
      let (b2, in_candle, is) =
        >>=-ok (within s c b1) (λ y. ok (mark s c (queue (s.decision_provider seen) y))) rest in
      let (b0, first, emptied) = at_open-Acted c b at in
      record {
        acted = b0;
        held = b2;
        first = first;
        second = subst (λ x. Acted s c x b2) emptied (within-Acted c b1 in_candle);
        marked = sym (ok_injective is);
      }

  -- Induction along the loop.
  pub run_loop_inv :
      (P : List Candle → Book → Type 0)
      → ((seen : List Candle) (c : Candle) (b b' : Book)
          → P seen b
          → Processed (seen ++ c ∷ []) c b b'
          → P (seen ++ c ∷ []) b')
      → (seen cs : List Candle) (b : Book) {b' : Book} → P seen b
      → run_loop s seen cs b ≡ ok b'
      → P (seen ++ cs) b'
  unfolding run_loop
  run_loop_inv P keep seen [] b p h = subst (P (seen ++ [])) (ok_injective h) (rw append-nil p)
  run_loop_inv P keep seen (c ∷ cs) b {b'} p h =
      let (b1, one, rest) =
        >>=-ok (process s (seen ++ c ∷ []) c b) (run_loop s (seen ++ c ∷ []) cs) h in
      subst (λ xs. P xs b') (append_assoc seen (c ∷ []) cs)
        (run_loop_inv P keep (seen ++ c ∷ []) cs b1
          (keep seen c b b1 p (process-Processed (seen ++ c ∷ []) c b one)) rest)

  -- A run that returned, taken apart.
  pub run_book-ok :
      (cs : List Candle) {b : Book}
      → run_book s cs ≡ ok b
      → (b0 : Book) × (check_candles cs ≡ ok tt)
        × (run_loop s [] cs (new_book s.config) ≡ ok b0)
        × (finish s cs b0 ≡ ok b)
  unfolding run_book
  run_book-ok cs h =
      let (u, checked, rest) =
        >>=-ok (check_candles cs) (λ _. run_loop s [] cs (new_book s.config) >>= finish s cs) h in
      let (b0, looped, finished) =
        >>=-ok (run_loop s [] cs (new_book s.config)) (finish s cs) rest in
      (b0, checked, looped, finished)

  close_book-booked :
      (p : Position) (t : ℕ) (raw : ℤ) (reason : ExitReason) (b : Book) {b' : Book}
      → close_book s p t raw reason b ≡ ok b'
      → (trade : Trade) × (close_position s.arithmetic s.cost_model s.config.slippage_bps p t raw
            reason
          ≡ ok trade)
        × (booked trade b ≡ b')
  unfolding close_book
  close_book-booked p t raw reason b h =
      let (trade, closed, is) =
        >>=-ok (close_position s.arithmetic s.cost_model s.config.slippage_bps p t raw reason)
          (λ x. ok (booked x b)) h in
      (trade, closed, ok_injective is)

  -- What the end of the data does to the book.
  pub finish-cases :
      (c : Candle) (cs : List Candle) (b : Book) {b' : Book}
      → finish s (c ∷ cs) b ≡ ok b'
      → ((b.position ≡ none) × (b ≡ b'))
        ⊎ ((p : Position) × (trade : Trade) × (b.position ≡ some p)
            × (close_position s.arithmetic s.cost_model s.config.slippage_bps p
                  (last_candle c cs).timestamp
                  (last_candle c cs).close
                  at_end_of_data
                ≡ ok trade)
            × (remarked s (last_candle c cs).timestamp (booked trade b) ≡ b'))
  unfolding finish
  finish-cases c cs b {b'} h = elim (Option-cases b.position) [
    | inl q ↦ inl (q, ground (arith, q))
    | inr (p, q) ↦
        let final = last_candle c cs in
        let closing = close_book s p final.timestamp final.close at_end_of_data b in
        let ends : (closing >>= λ x. ok (remarked s final.timestamp x)) ≡ ok b' =
          ground (arith, q) in
        let (b1, closed, is) = >>=-ok closing (λ x. ok (remarked s final.timestamp x)) ends in
        let (trade, sold, booked_is) =
          close_book-booked p final.timestamp final.close at_end_of_data b closed in
        inr (p, trade, q, sold, ap (λ x. remarked s final.timestamp x) booked_is ∙ ok_injective is)
  ]
