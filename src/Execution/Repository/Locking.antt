-- ===== src/Execution/Repository/Locking.antt =====
-- One call of the repository: what it stores, what it leaves alone, and the refusal of an update
-- that was computed from a state that is no longer stored.
use mytradingsystem.Base.{
  sym, ℕ, ◌+◌, ◌≡◌, ◌≢◌, inl, inr, ap, ◌∙◌, true, false, some, List, ◌∷◌, arith, ok, err, lookup,
  insert, nat_keys, lookup-insert_self, lookup-insert_ne, Option-cases, Bool-cases, Result-cases,
}
use mytradingsystem.Execution.StateMachine.{
  OrderEvent, OrderState, apply_order_event, requires_reconciliation, is_duplicate,
}
use mytradingsystem.Execution.StateMachine.Step.{
  Step, repeated, late, conflicting, too_much, fills, moves, apply-Step,
}
use mytradingsystem.Execution.Repository.{
  Tables, OrderRow, EventRow, RepositoryError, concurrent_update, load, apply, apply_loaded,
  store_update, update_where, event_ids, state_of, row_of,
}

-- A call that raises has written nothing.
pub apply_error_unchanged :
    (i : ℕ) (e : OrderEvent) (db : Tables) {x : RepositoryError}
    → (apply i e db).0 ≡ err x
    → (apply i e db).1 ≡ db
unfolding apply apply_loaded store_update
apply_error_unchanged i e db h = ground arith

-- A fresh event leads to a state that keeps the identity and the quantity, and adds the event's
-- identity and one to the version.
pub record Advances (s : OrderState) (e : OrderEvent) (t : OrderState) : Type 0 where
  pub same_id : t.order_id ≡ s.order_id
  pub same_quantity : t.quantity ≡ s.quantity
  pub ids : t.processed_event_ids ≡ e.event_id ∷ s.processed_event_ids
  pub version : t.version ≡ s.version + 1

Step-Advances :
    {s : OrderState} {e : OrderEvent} {t : OrderState}
    → is_duplicate s e ≡ false
    → Step s e t
    → Advances s e t
unfolding requires_reconciliation
Step-Advances new (repeated h) = cc
Step-Advances new (late h k) = ground arith
Step-Advances new (conflicting h k c) = ground arith
Step-Advances new (too_much a f o q) = ground arith
Step-Advances new (fills a f o q) = ground arith
Step-Advances new (moves a q) = ground arith

pub apply-Advances :
    (s : OrderState) (e : OrderEvent) {t : OrderState}
    → is_duplicate s e ≡ false
    → apply_order_event s e ≡ ok t
    → Advances s e t
apply-Advances s e new h = Step-Advances new (apply-Step s e h)

apply-duplicate :
    (s : OrderState) (e : OrderEvent) → is_duplicate s e ≡ true → apply_order_event s e ≡ ok s
unfolding apply_order_event
apply-duplicate s e h = ground arith

-- A successful `apply_loaded` of a fresh event, taken apart: the row had the version that was
-- loaded, and the new tables hold the new state's row and the event.
pub apply_loaded-ok :
    (i : ℕ) (e : OrderEvent) (s : OrderState) (db : Tables) {t : OrderState} {db' : Tables}
    → is_duplicate s e ≡ false
    → apply_loaded i e s db ≡ (ok t, db')
    → (old : OrderRow) × (apply_order_event s e ≡ ok t)
      × (lookup i db.orders ≡ some old)
      × (old.version ≡ s.version)
      × (db'.orders ≡ insert i (record (row_of t) { quantity = old.quantity }) db.orders)
      × (db'.event_rows
          ≡ record { order_id = i; event = e; resulting_version = t.version } ∷ db.event_rows)
unfolding apply_loaded store_update update_where
apply_loaded-ok i e s db new h = elim (Option-cases (lookup i db.orders)) [
  | inl q ↦ absurd (ground arith)
  | inr (row, q) ↦ (row, ground arith, q, ground arith, ground arith, ground arith)
]

-- The row that is found once a fresh event is stored.
pub apply_loaded-row :
    (i : ℕ) (e : OrderEvent) (s : OrderState) (db : Tables) {t : OrderState} {db' : Tables}
    → is_duplicate s e ≡ false
    → apply_loaded i e s db ≡ (ok t, db')
    → (row : OrderRow) × (lookup i db'.orders ≡ some row) × (row.version ≡ s.version + 1)
apply_loaded-row i e s db {t} {db'} new h =
    let (old, step, found, same, orders, rows) = apply_loaded-ok i e s db new h in
    let row : OrderRow = record (row_of t) { quantity = old.quantity } in
    (
      row,
      ap (lookup i) orders ∙ lookup-insert_self i row db.orders,
      (apply-Advances s e new step).version,
    )

-- Two sessions that loaded the same state cannot both store a fresh event on it: the second update
-- is refused and writes nothing, whatever the two events are.
pub apply_loaded-lost_update :
    (i : ℕ) (e f : OrderEvent) (s : OrderState) (db : Tables) {t u : OrderState} {db' : Tables}
    → is_duplicate s e ≡ false
    → is_duplicate s f ≡ false
    → apply_loaded i e s db ≡ (ok t, db')
    → apply_order_event s f ≡ ok u
    → apply_loaded i f s db' ≡ (err concurrent_update, db')
unfolding apply_loaded store_update update_where
apply_loaded-lost_update i e f s db ne nf h k =
    let (row, found, version) = apply_loaded-row i e s db ne h in ground arith

-- What a load that returned has found.
pub load-ok :
    (i : ℕ) (db : Tables) {s : OrderState}
    → load i db ≡ ok s
    → (row : OrderRow) × (lookup i db.orders ≡ some row)
      × (s ≡ state_of i row (event_ids i db.event_rows))
unfolding load
load-ok i db h = elim (Option-cases (lookup i db.orders)) [
  | inl q ↦ absurd (ground arith)
  | inr (row, q) ↦ (row, q, ground arith)
]

load_of_row :
    (i : ℕ) (db : Tables) {row : OrderRow}
    → lookup i db.orders ≡ some row
    → load i db ≡ ok (state_of i row (event_ids i db.event_rows))
unfolding load
load_of_row i db h = ground arith

event_ids-cons :
    (i : ℕ) (e : OrderEvent) (v : ℕ) (rs : List EventRow)
    → event_ids i (record { order_id = i; event = e; resulting_version = v } ∷ rs)
      ≡ e.event_id ∷ event_ids i rs
unfolding event_ids
event_ids-cons i e v rs = ground arith

-- The same for `apply_loaded` on the tables that the state was loaded from.
pub load-apply_loaded :
    (i : ℕ) (e : OrderEvent) (s : OrderState) (db : Tables) {t : OrderState} {db' : Tables}
    → is_duplicate s e ≡ false
    → load i db ≡ ok s
    → apply_loaded i e s db ≡ (ok t, db')
    → load i db' ≡ ok t
load-apply_loaded i e s db {t} {db'} new l h =
    let (row, found, is) = load-ok i db l in
    let (old, step, found', same, orders, rows) = apply_loaded-ok i e s db new h in
    let a = apply-Advances s e new step in
    let new_row : OrderRow = record (row_of t) { quantity = old.quantity } in
    load_of_row i db' (ap (lookup i) orders ∙ lookup-insert_self i new_row db.orders)
    ∙ ap (λ rs. ok (state_of i new_row (event_ids i rs))) rows
    ∙ ap (λ ids. ok (state_of i new_row ids)) (event_ids-cons i e t.version db.event_rows)
    ∙ ground arith

apply-duplicate_load :
    (i : ℕ) (e : OrderEvent) (s : OrderState) (db : Tables) {t : OrderState} {db' : Tables}
    → is_duplicate s e ≡ true
    → load i db ≡ ok s
    → apply_loaded i e s db ≡ (ok t, db')
    → load i db' ≡ ok t
unfolding apply_loaded
apply-duplicate_load i e s db old l h = ground (arith, apply-duplicate s e old)

-- After a call that returned, a load of the order gives the state that the call returned.
load-apply :
    (i : ℕ) (e : OrderEvent) (db : Tables) {t : OrderState} {db' : Tables}
    → apply i e db ≡ (ok t, db')
    → load i db' ≡ ok t
unfolding apply
load-apply i e db h = elim (Result-cases (load i db)) [
  | inr (x, q) ↦ absurd (ground arith)
  | inl (s, q) ↦ elim (Bool-cases (is_duplicate s e)) [
    | inl old ↦ apply-duplicate_load i e s db old q (ground arith)
    | inr new ↦ load-apply_loaded i e s db new q (ground arith)
  ]
]

store_update-load_ne :
    (i j : ℕ) (e : OrderEvent) (s t : OrderState) (db : Tables)
    → j ≢ i
    → load j (store_update i e s t db).1 ≡ load j db
unfolding store_update update_where load event_ids
store_update-load_ne i j e s t db ne = elim (Option-cases (lookup i db.orders)) [
  | inl q ↦ ground arith
  | inr (old, q) ↦
      ground (arith, lookup-insert_ne j i (record (row_of t) { quantity = old.quantity }) db.orders)
]

pub apply_loaded-load_ne :
    (i j : ℕ) (e : OrderEvent) (s : OrderState) (db : Tables)
    → j ≢ i
    → load j (apply_loaded i e s db).1 ≡ load j db
unfolding apply_loaded
apply_loaded-load_ne i j e s db ne = grind (arith, store_update-load_ne)

-- A call for one order leaves every other order as it was.
load-apply_ne :
    (i j : ℕ) (e : OrderEvent) (db : Tables) → j ≢ i → load j (apply i e db).1 ≡ load j db
unfolding apply
load-apply_ne i j e db ne = grind (arith, apply_loaded-load_ne)

-- After a call that returned, a load of the order gives the state that the call returned, and a load
-- of any other order gives what it gave before.
pub load-apply_each :
    (i : ℕ) (e : OrderEvent) (db : Tables) {t : OrderState} {db' : Tables}
    → apply i e db ≡ (ok t, db')
    → (load i db' ≡ ok t) × ((j : ℕ) → j ≢ i → load j db' ≡ load j db)
load-apply_each i e db h =
    (load-apply i e db h, λ j ne. ap (λ r. load j r.1) (sym h) ∙ load-apply_ne i j e db ne)
