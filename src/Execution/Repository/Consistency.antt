-- ===== src/Execution/Repository/Consistency.antt =====
-- Every configuration of tables and loaded states that sessions reach is consistent.
use mytradingsystem.Base.{
  ℕ, ◌≤◌, ◌≡◌, ◌≢◌, inl, inr, refl, sym, ap, subst, subst₂, ◌∙◌, true, false, none, some, List, [],
  ◌∷◌, map, arith, ok, lookup, insert, has_key, nat_keys, lookup-insert_self, lookup-insert_ne,
  Option-cases, Bool-cases, DateTime, ℤ, ok_injective, All, ℕ_discrete, All-mem,
}
use mathlib.Core.List.{Memᴰ}
use mytradingsystem.Execution.StateMachine.{
  OrderEvent, OrderState, apply_order_event, initial_order_state, is_duplicate,
}
use mytradingsystem.Execution.Repository.{
  Tables, EventRow, load, apply_loaded, create, event_ids, row_of, insert_row, ordered_rows, events,
}
use mytradingsystem.Execution.Repository.Locking.{load-apply_loaded}
use mytradingsystem.Execution.Repository.Replay.{replay}
use mytradingsystem.Execution.Repository.Sessions.{
  Sourced, Since, Config, SinceLoaded, Consistent, current, stored_not_none, update-Sourced,
  Untouched, update-Untouched, Sourced-Untouched, Since-Untouched, Since-update,
}

All-map {ℓ} :
    {A : Type ℓ} {P Q : A → Type 0} (f : (a : A) → P a → Q a) (xs : List A) → All P xs → All Q xs
All-map f [] h = tt
All-map f (x ∷ xs) h = (f x h.0, All-map f xs h.1)

fresh_update-Consistent :
    (i : ℕ) (e : OrderEvent) (s : OrderState) (c : Config) {t : OrderState} {db : Tables}
    → is_duplicate s e ≡ false
    → Consistent c
    → Since i s c.tables
    → apply_loaded i e s c.tables ≡ (ok t, db)
    → Consistent (record c { tables = db })
fresh_update-Consistent i e s c {t} {db} new k since h =
    let l = current i e s c.tables new since h in
    let other = λ (j : ℕ) (ne : j ≢ i). update-Untouched i j e s c.tables new ne h in
    record {
      order_sourced = λ j u q. elim (ℕ_discrete j i) [
        | yes same ↦
            let is_t : t ≡ u = ok_injective (
              sym (load-apply_loaded i e s c.tables new l h)
              ∙ subst (λ x. load x db ≡ ok u) same q) in
            subst₂ (λ x y. Sourced x db y) (sym same) is_t
              (update-Sourced i e s c.tables new (k.order_sourced i s l) h)
        | no ne ↦
            Sourced-Untouched j c.tables db u (other j ne)
              (k.order_sourced j u (sym (other j ne).same_load ∙ q))
      ];
      no_orphans = λ j q. elim (ℕ_discrete j i) [
        | yes same ↦ absurd (
            stored_not_none i db (load-apply_loaded i e s c.tables new l h)
              (subst (λ x. lookup x db.orders ≡ none) same q))
        | no ne ↦ (other j ne).same_rows ∙ k.no_orphans j (sym (other j ne).same_lookup ∙ q)
      ];
      since =
          All-map
            (λ p x. elim (ℕ_discrete p.0 i) [
              | yes same ↦
                  subst (λ j. Since j p.1 db) (sym same)
                    (Since-update i e s p.1 c.tables new l h
                      (subst (λ j. Since j p.1 c.tables) same x))
              | no ne ↦ Since-Untouched p.0 c.tables db p.1 (other p.0 ne) x
            ])
            c.loaded k.since;
    }

-- A call that found the event among those of the loaded state leaves the tables alone.
duplicate-same_tables :
    (i : ℕ) (e : OrderEvent) (s : OrderState) (db : Tables) {t : OrderState} {db' : Tables}
    → is_duplicate s e ≡ true
    → apply_loaded i e s db ≡ (ok t, db')
    → db' ≡ db
unfolding apply_loaded apply_order_event
duplicate-same_tables i e s db d h = ground arith

pub update-Consistent :
    (i : ℕ) (e : OrderEvent) (s : OrderState) (c : Config) {t : OrderState} {db : Tables}
    → Consistent c
    → Memᴰ (i, s) c.loaded
    → apply_loaded i e s c.tables ≡ (ok t, db)
    → Consistent (record c { tables = db })
update-Consistent i e s c k m h = elim (Bool-cases (is_duplicate s e)) [
  | inl old ↦
      subst (λ db. Consistent (record c { tables = db }))
        (sym (duplicate-same_tables i e s c.tables old h)) k
  | inr new ↦
      fresh_update-Consistent i e s c new k
        (All-mem (SinceLoaded c.tables) (i, s) c.loaded m k.since) h
]

pub load-Consistent :
    (i : ℕ) (c : Config) {s : OrderState}
    → Consistent c
    → load i c.tables ≡ ok s
    → Consistent (record c { loaded = (i, s) ∷ c.loaded })
load-Consistent i c {s} k l = record {
  order_sourced = k.order_sourced;
  no_orphans = k.no_orphans;
  since = (record { now = s; stored = l; older = omega arith; same = λ q. refl }, k.since);
}

create-ok :
    (i : ℕ) (q : ℤ) (at : DateTime) (db : Tables) {s : OrderState} {db' : Tables}
    → create i q at db ≡ (ok s, db')
    → (initial_order_state i q at ≡ ok s)
      × (lookup i db.orders ≡ none)
      × (db' ≡ record db { orders = insert i (row_of s) db.orders })
unfolding create has_key
create-ok i q at db h = elim (Option-cases (lookup i db.orders)) [
  | inl p ↦ (ground arith, p, ground arith)
  | inr (row, p) ↦ absurd (ground arith)
]

initial_fields :
    (i : ℕ) (q : ℤ) (at : DateTime) {s : OrderState}
    → initial_order_state i q at ≡ ok s
    → (s.order_id ≡ i) × (s.quantity ≡ q) × (s.processed_event_ids ≡ [])
unfolding initial_order_state
initial_fields i q at h = ground arith

insert_row_not_nil : (r : EventRow) (rs : List EventRow) → insert_row r rs ≢ []
unfolding insert_row
insert_row_not_nil r [] h = cc
insert_row_not_nil r (s ∷ rs) h = ground arith

event_ids-nil : (i : ℕ) (rs : List EventRow) → ordered_rows i rs ≡ [] → event_ids i rs ≡ []
unfolding event_ids
event_ids-nil i [] h = refl
event_ids-nil i (r ∷ rs) h =
    ground (arith, event_ids-nil i rs, insert_row_not_nil r (ordered_rows i rs))

create-load :
    (i : ℕ) (q : ℤ) (at : DateTime) (db : Tables) {s : OrderState} {db' : Tables}
    → ordered_rows i db.event_rows ≡ []
    → create i q at db ≡ (ok s, db')
    → load i db' ≡ ok s
unfolding load
create-load i q at db {s} none_there h =
    let (begins, absent, eq) = create-ok i q at db h in
    let (same_id, same_quantity, no_ids) = initial_fields i q at begins in
    let found : lookup i (insert i (row_of s) db.orders) ≡ some (row_of s) =
      lookup-insert_self i (row_of s) db.orders in
    let ids = event_ids-nil i db.event_rows none_there in ap (load i) eq ∙ ground arith

create-Untouched :
    (i j : ℕ) (q : ℤ) (at : DateTime) (db : Tables) {s : OrderState} {db' : Tables}
    → j ≢ i
    → create i q at db ≡ (ok s, db')
    → Untouched j db db'
unfolding load
create-Untouched i j q at db {s} ne h =
    let (begins, absent, eq) = create-ok i q at db h in
    let other = lookup-insert_ne j i (row_of s) db.orders ne in
    record {
      same_lookup = ap (λ (x : Tables). lookup j x.orders) eq ∙ other;
      same_rows = ap (λ (x : Tables). ordered_rows j x.event_rows) eq;
      same_load = ap (load j) eq ∙ ground arith;
    }

pub create-Consistent :
    (i : ℕ) (q : ℤ) (at : DateTime) (c : Config) {s : OrderState} {db : Tables}
    → Consistent c
    → create i q at c.tables ≡ (ok s, db)
    → Consistent (record c { tables = db })
unfolding events
create-Consistent i q at c {s} {db} k h =
    let (begins, absent, eq) = create-ok i q at c.tables h in
    let (same_id, same_quantity, no_ids) = initial_fields i q at begins in
    let empty = k.no_orphans i absent in
    let l = create-load i q at c.tables empty h in
    let rows : ordered_rows i db.event_rows ≡ [] =
      ap (λ (x : Tables). ordered_rows i x.event_rows) eq ∙ empty in
    let other = λ (j : ℕ) (ne : j ≢ i). create-Untouched i j q at c.tables ne h in
    let new : Sourced i db s = record {
      created_at = at;
      first = s;
      begins = subst (λ x. initial_order_state i x at ≡ ok s) (sym same_quantity) begins;
      replays = ap (λ rs. replay s (map (λ x. x.event) rs)) rows;
      below = subst (λ rs. All (λ x. x.resulting_version ≤ s.version) rs) (sym rows) tt;
    } in
    record {
      order_sourced = λ j u p. elim (ℕ_discrete j i) [
        | yes same ↦
            subst₂ (λ x y. Sourced x db y) (sym same)
              (ok_injective (sym l ∙ subst (λ x. load x db ≡ ok u) same p)) new
        | no ne ↦
            Sourced-Untouched j c.tables db u (other j ne)
              (k.order_sourced j u (sym (other j ne).same_load ∙ p))
      ];
      no_orphans = λ j p. elim (ℕ_discrete j i) [
        | yes same ↦ subst (λ x. ordered_rows x db.event_rows ≡ []) (sym same) rows
        | no ne ↦ (other j ne).same_rows ∙ k.no_orphans j (sym (other j ne).same_lookup ∙ p)
      ];
      since =
          All-map
            (λ p x. elim (ℕ_discrete p.0 i) [
              | yes same ↦ absurd (
                  stored_not_none p.0 c.tables x.stored
                    (subst (λ y. lookup y c.tables.orders ≡ none) (sym same) absent))
              | no ne ↦ Since-Untouched p.0 c.tables db p.1 (other p.0 ne) x
            ])
            c.loaded k.since;
    }
