-- ===== src/Execution/Repository.antt =====
-- packages/execution/repository.py: order states in two tables, with optimistic concurrency. A
-- session's statements act on the tables in order; another session may commit between the load and
-- the update of `apply`, so the two halves are definitions of their own. A quantity is assumed to
-- fit its `Numeric(28, 8)` column, and a time to come back as it was written.
pub mod Locking
pub mod Replay
pub mod Sessions
pub mod Consistency
pub mod Runs
use mytradingsystem.Base.{
  ℕ, ◌+◌, Bool, true, false, ◌&&◌, String, Option, none, some, List, [], ◌∷◌, ◌++◌, map, ℤ, ◌==◌,
  if◌then◌else◌, Result, ok, err, leb, Dict, lookup, insert, has_key, nat_keys, DateTime,
}
use mytradingsystem.Domain.{OrderStatus}
use mytradingsystem.Execution.StateMachine.{
  OrderEvent, OrderState, OrderError, Reason, initial_order_state, apply_order_event, is_duplicate,
}

-- `ExecutionOrderRecord`, under its primary key.
pub record OrderRow : Type 0 where
  pub quantity : ℤ
  pub status : OrderStatus
  pub filled_quantity : ℤ
  pub broker_order_id : Option String
  pub last_event_at : ℕ
  pub version : ℕ
  pub reconciliation_reason : Option Reason

-- `ExecutionOrderEventRecord`
pub record EventRow : Type 0 where
  pub order_id : ℕ
  pub event : OrderEvent
  pub resulting_version : ℕ

-- The two tables; the event rows stand newest first.
pub record Tables : Type 0 where
  pub orders : Dict ℕ OrderRow
  pub event_rows : List EventRow

pub data RepositoryError : Type 0 where
  order_error : OrderError → RepositoryError
  no_such_order : RepositoryError
  concurrent_update : RepositoryError
  duplicate_primary_key : RepositoryError

abbrev pub lift : {A : Type 0} → Result OrderError A → Result RepositoryError A
lift (ok a) = ok a
lift (err e) = err (order_error e)

-- The columns of a state.
abbrev pub row_of : OrderState → OrderRow
row_of s = record {
  quantity = s.quantity;
  status = s.status;
  filled_quantity = s.filled_quantity;
  broker_order_id = s.broker_order_id;
  last_event_at = s.last_event_at;
  version = s.version;
  reconciliation_reason = s.reconciliation_reason;
}

-- `create`; the database refuses a primary key that is there already.
unfoldable pub create : ℕ → ℤ → DateTime → Tables → Result RepositoryError OrderState × Tables
create order_id quantity created_at db = elim (initial_order_state order_id quantity created_at) [
  | err e ↦ (err (order_error e), db)
  | ok s ↦
      if has_key order_id db.orders
      then (err duplicate_primary_key, db)
      else (ok s, record db { orders = insert order_id (row_of s) db.orders })
]

-- The event identities of an order: `select(event_id).where(order_id == ...)`.
unfoldable pub event_ids : ℕ → List EventRow → List String
event_ids i [] = []
event_ids i (r ∷ rs) =
    let rest = event_ids i rs in if r.order_id == i then r.event.event_id ∷ rest else rest

abbrev pub state_of : ℕ → OrderRow → List String → OrderState
state_of i row ids = record {
  order_id = i;
  quantity = row.quantity;
  status = row.status;
  filled_quantity = row.filled_quantity;
  broker_order_id = row.broker_order_id;
  last_event_at = row.last_event_at;
  processed_event_ids = ids;
  version = row.version;
  reconciliation_reason = row.reconciliation_reason;
}

unfoldable pub load : ℕ → Tables → Result RepositoryError OrderState
load order_id db = elim (lookup order_id db.orders) [
  | none ↦ err no_such_order
  | some row ↦ ok (state_of order_id row (event_ids order_id db.event_rows))
]

-- `update(...).where(id == order_id, version == expected)`: the new table where one row is hit.
unfoldable pub update_where : ℕ → ℕ → OrderRow → Tables → Option Tables
update_where order_id expected row db = elim (lookup order_id db.orders) [
  | none ↦ none
  | some old ↦
      if old.version == expected
      then some (record db {
        orders = insert order_id (record row { quantity = old.quantity }) db.orders;
      })
      else none
]

-- `session.add(ExecutionOrderEventRecord(...))`
abbrev pub add_event : ℕ → OrderEvent → ℕ → Tables → Tables
add_event order_id e version db = record db {
  event_rows =
      record { order_id = order_id; event = e; resulting_version = version } ∷ db.event_rows;
}

-- `apply` from the update on: the state that was loaded, the state to store, and the tables as the
-- update finds them.
unfoldable pub store_update :
    ℕ → OrderEvent → OrderState → OrderState → Tables → Result RepositoryError OrderState × Tables
store_update order_id e current updated db =
    elim (update_where order_id current.version (row_of updated) db) [
      | none ↦ (err concurrent_update, db)
      | some db' ↦ (ok updated, add_event order_id e updated.version db')
    ]

-- `apply` after the load, on the tables as they are by then.
unfoldable pub apply_loaded :
    ℕ → OrderEvent → OrderState → Tables → Result RepositoryError OrderState × Tables
apply_loaded order_id e current db = elim (apply_order_event current e) [
  | err x ↦ (err (order_error x), db)
  | ok updated ↦
      if is_duplicate current e
      then (ok current, db)
      else store_update order_id e current updated db
]

-- `apply` with no other session between.
unfoldable pub apply : ℕ → OrderEvent → Tables → Result RepositoryError OrderState × Tables
apply order_id e db = elim (load order_id db) [
  | err x ↦ (err x, db)
  | ok current ↦ apply_loaded order_id e current db
]

-- A row's place among rows in order of `resulting_version`.
unfoldable pub insert_row : EventRow → List EventRow → List EventRow
insert_row r [] = r ∷ []
insert_row r (s ∷ ss) =
    if leb r.resulting_version s.resulting_version then r ∷ s ∷ ss else s ∷ insert_row r ss

abbrev pub ordered_rows : ℕ → List EventRow → List EventRow
ordered_rows i [] = []
ordered_rows i (r ∷ rs) =
    let rest = ordered_rows i rs in if r.order_id == i then insert_row r rest else rest

-- `events`: the events of an order by the version that each led to.
unfoldable pub events : ℕ → Tables → List OrderEvent
unfolding insert_row
events order_id db = map (λ r. r.event) (ordered_rows order_id db.event_rows)
