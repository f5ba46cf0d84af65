-- ===== src/Execution/Repository/Sessions.antt =====
-- The event table as the source of the order table: sessions that load and update in any order.
use mytradingsystem.Base.{
  ℕ, ◌+◌, ◌≤◌, ◌≡◌, ◌≢◌, refl, sym, ap, subst, subst₂, ◌∙◌, false, none, List, [], ◌∷◌, ◌++◌, map,
  arith, map-append, ok, ◌>>=◌, lookup, nat_keys, lookup-insert_ne, DateTime, ℤ, ok_injective, All,
}
use mathlib.Core.List.{Memᴰ}
use mytradingsystem.Execution.StateMachine.{
  OrderEvent, OrderState, apply_order_event, initial_order_state, is_duplicate,
}
use mytradingsystem.Execution.Repository.{
  Tables, EventRow, load, apply_loaded, create, ordered_rows, events,
}
use mytradingsystem.Execution.Repository.Locking.{
  apply_loaded-ok, load-ok, load-apply_loaded, apply-Advances, apply_loaded-load_ne,
}
use mytradingsystem.Execution.Repository.Replay.{
  replay, replay-append, All-snoc, ordered_rows-ne, events-append,
}

-- An order and its events: the replay of the events gives the stored state.
pub record Sourced (i : ℕ) (db : Tables) (s : OrderState) : Type 0 where
  pub created_at : DateTime
  pub first : OrderState
  pub begins : initial_order_state i s.quantity created_at ≡ ok first
  pub replays : replay first (events i db) ≡ ok s
  pub below : All (λ r. r.resulting_version ≤ s.version) (ordered_rows i db.event_rows)

-- What the tables held when the state was loaded is either still there or has a smaller version.
pub record Since (i : ℕ) (s : OrderState) (db : Tables) : Type 0 where
  pub now : OrderState
  pub stored : load i db ≡ ok now
  pub older : s.version ≤ now.version
  pub same : now.version ≡ s.version → now ≡ s

-- The tables, and the states that sessions have loaded and may still update from.
pub record Config : Type 0 where
  pub tables : Tables
  pub loaded : List (ℕ × OrderState)

-- One statement of one session. An update may use any state that was loaded before, however many
-- other updates have come between.
pub data Session (c : Config) : Config → Type 0 where
  creates :
      (i : ℕ) (q : ℤ) (at : DateTime) {s : OrderState} {db : Tables}
      → create i q at c.tables ≡ (ok s, db)
      → Session c (record c { tables = db })
  loads :
      (i : ℕ) {s : OrderState}
      → load i c.tables ≡ ok s
      → Session c (record c { loaded = (i, s) ∷ c.loaded })
  updates :
      (i : ℕ) (s : OrderState) (e : OrderEvent) {t : OrderState} {db : Tables}
      → Memᴰ (i, s) c.loaded
      → apply_loaded i e s c.tables ≡ (ok t, db)
      → Session c (record c { tables = db })

abbrev pub SinceLoaded : Tables → ℕ × OrderState → Type 0
SinceLoaded db (i, s) = Since i s db

pub record Consistent (c : Config) : Type 0 where
  pub order_sourced : (i : ℕ) (s : OrderState) → load i c.tables ≡ ok s → Sourced i c.tables s
  pub no_orphans :
      (i : ℕ) → lookup i c.tables.orders ≡ none → ordered_rows i c.tables.event_rows ≡ []
  pub since : All (SinceLoaded c.tables) c.loaded

-- An update of a fresh event goes through only from the state that is stored.
pub current :
    (i : ℕ) (e : OrderEvent) (s : OrderState) (db : Tables) {t : OrderState} {db' : Tables}
    → is_duplicate s e ≡ false
    → Since i s db
    → apply_loaded i e s db ≡ (ok t, db')
    → load i db ≡ ok s
current i e s db new since h =
    let (old, step, found, same, orders, rows) = apply_loaded-ok i e s db new h in
    let (row, found', is) = load-ok i db since.stored in
    let eq : since.now ≡ s = since.same (ground arith) in since.stored ∙ ap ok eq

pub stored_not_none :
    (i : ℕ) (db : Tables) {s : OrderState} → load i db ≡ ok s → lookup i db.orders ≢ none
stored_not_none i db h q = let (row, found, is) = load-ok i db h in cc

pub update-Sourced :
    (i : ℕ) (e : OrderEvent) (s : OrderState) (db : Tables) {t : OrderState} {db' : Tables}
    → is_duplicate s e ≡ false
    → Sourced i db s
    → apply_loaded i e s db ≡ (ok t, db')
    → Sourced i db' t
unfolding events
update-Sourced i e s db {t} {db'} new src h =
    let (old, step, found, same, orders, rows) = apply_loaded-ok i e s db new h in
    let a = apply-Advances s e new step in
    let r : EventRow = record { order_id = i; event = e; resulting_version = s.version + 1 } in
    let row_eq : db'.event_rows ≡ r ∷ db.event_rows =
      rows
      ∙ ap (λ v. record { order_id = i; event = e; resulting_version = v } ∷ db.event_rows)
          a.version in
    let ordered : ordered_rows i db'.event_rows ≡ ordered_rows i db.event_rows ++ r ∷ [] =
      ap (ordered_rows i) row_eq ∙ events-append i e s.version db.event_rows src.below in
    record {
      created_at = src.created_at;
      first = src.first;
      begins =
          subst (λ q. initial_order_state i q src.created_at ≡ ok src.first) (sym a.same_quantity)
            src.begins;
      replays =
          ap (λ rs. replay src.first (map (λ x. x.event) rs)) ordered
          ∙ ap (replay src.first)
              (map-append (λ x. x.event) (ordered_rows i db.event_rows) (r ∷ []))
          ∙ replay-append src.first (events i db) e
          ∙ ap (λ m. m >>= λ u. apply_order_event u e) src.replays
          ∙ step;
      below =
          subst₂ (λ v rs. All (λ x. x.resulting_version ≤ v) rs) (sym a.version) (sym ordered)
            (All-snoc s.version (ordered_rows i db.event_rows) r src.below refl);
    }

-- What an update of a fresh event leaves of another order.
pub record Untouched (j : ℕ) (db db' : Tables) : Type 0 where
  pub same_lookup : lookup j db'.orders ≡ lookup j db.orders
  pub same_rows : ordered_rows j db'.event_rows ≡ ordered_rows j db.event_rows
  pub same_load : load j db' ≡ load j db

pub update-Untouched :
    (i j : ℕ) (e : OrderEvent) (s : OrderState) (db : Tables) {t : OrderState} {db' : Tables}
    → is_duplicate s e ≡ false
    → j ≢ i
    → apply_loaded i e s db ≡ (ok t, db')
    → Untouched j db db'
update-Untouched i j e s db {t} {db'} new ne h =
    let (old, step, found, same, orders, rows) = apply_loaded-ok i e s db new h in
    record {
      same_lookup = ap (lookup j) orders ∙ lookup-insert_ne j i _ db.orders ne;
      same_rows = ap (ordered_rows j) rows ∙ ordered_rows-ne i j e t.version db.event_rows ne;
      same_load = ap (load j) (sym (ap (λ p. p.1) h)) ∙ apply_loaded-load_ne i j e s db ne;
    }

pub Sourced-Untouched :
    (j : ℕ) (db db' : Tables) (s : OrderState)
    → Untouched j db db'
    → Sourced j db s
    → Sourced j db' s
unfolding events
Sourced-Untouched j db db' s u src = record {
  created_at = src.created_at;
  first = src.first;
  begins = src.begins;
  replays = ap (λ rs. replay src.first (map (λ x. x.event) rs)) u.same_rows ∙ src.replays;
  below = subst (λ rs. All (λ x. x.resulting_version ≤ s.version) rs) (sym u.same_rows) src.below;
}

pub Since-Untouched :
    (j : ℕ) (db db' : Tables) (s : OrderState) → Untouched j db db' → Since j s db → Since j s db'
Since-Untouched j db db' s u x = record {
  now = x.now;
  stored = u.same_load ∙ x.stored;
  older = x.older;
  same = x.same;
}

-- A state that was loaded before is older than the one that a fresh update stores.
pub Since-update :
    (i : ℕ) (e : OrderEvent) (s x : OrderState) (db : Tables) {t : OrderState} {db' : Tables}
    → is_duplicate s e ≡ false
    → load i db ≡ ok s
    → apply_loaded i e s db ≡ (ok t, db')
    → Since i x db
    → Since i x db'
Since-update i e s x db {t} new l h since =
    let (old, step, found, same, orders, rows) = apply_loaded-ok i e s db new h in
    let a = apply-Advances s e new step in
    let now_is : since.now ≡ s = ok_injective (sym since.stored ∙ l) in
    let v : t.version ≡ since.now.version + 1 =
      a.version ∙ ap (λ (y : OrderState). y.version + 1) (sym now_is) in
    record {
      now = t;
      stored = load-apply_loaded i e s db new l h;
      older = omega (arith, since.older);
      same = λ q. absurd (omega (arith, since.older));
    }
