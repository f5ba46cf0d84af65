-- ===== src/Execution/Repository/Runs.antt =====
-- Any number of sessions, statement by statement, from empty tables.
use mytradingsystem.Base.{ℕ, ◌≡◌, refl, [], ok, DateTime, lookup, nat_keys}
use mytradingsystem.Execution.StateMachine.{OrderState, initial_order_state}
use mytradingsystem.Execution.Repository.{load, events}
use mytradingsystem.Execution.Repository.Replay.{replay}
use mytradingsystem.Execution.Repository.Sessions.{
  Config, Session, creates, loads, updates, Consistent,
}
use mytradingsystem.Execution.Repository.Consistency.{
  update-Consistent, load-Consistent, create-Consistent,
}

abbrev pub empty : Config
empty = record { tables = record { orders = []; event_rows = [] }; loaded = [] }

pub data Runs : Config → Type 0 where
  start_empty : Runs empty
  then_do : {c d : Config} → Runs c → Session c d → Runs d

Session-Consistent : {c d : Config} → Session c d → Consistent c → Consistent d
Session-Consistent {c} (creates i q at h) k = create-Consistent i q at c k h
Session-Consistent {c} (loads i h) k = load-Consistent i c k h
Session-Consistent {c} (updates i s e m h) k = update-Consistent i e s c k m h

load_empty : (i : ℕ) {s : OrderState} → load i empty.tables ≡ ok s → ⊥
unfolding load lookup
load_empty i h = cc

Runs-Consistent : {c : Config} → Runs c → Consistent c
Runs-Consistent start_empty = record {
  order_sourced = λ i s h. absurd (load_empty i h);
  no_orphans = λ i h. refl;
  since = tt;
}
Runs-Consistent (then_do r s) = Session-Consistent s (Runs-Consistent r)

-- However the sessions' loads and updates interleave, each stored order is what its stored events
-- give: there is a creation time from which the replay of `events` is the state that a load returns.
pub Runs-replay :
    (c : Config) (i : ℕ) {s : OrderState}
    → Runs c
    → load i c.tables ≡ ok s
    → (at : DateTime) × (first : OrderState) × (initial_order_state i s.quantity at ≡ ok first)
      × (replay first (events i c.tables) ≡ ok s)
Runs-replay c i {s} r h =
    let src = (Runs-Consistent r).order_sourced i s h in
    (src.created_at, src.first, src.begins, src.replays)
