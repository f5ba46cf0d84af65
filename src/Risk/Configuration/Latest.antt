-- ===== src/Risk/Configuration/Latest.antt =====
-- The record that `load` takes for a type of limit, among all that are stored.
use mathlib.Core.List.{Memᴰ}
use mytradingsystem.Base.{
  ℕ, List, [], ◌∷◌, some, ◌≡◌, ◌≤◌, inl, inr, true, false, arith, refl, ap, Bool-cases, ◌∙◌, any,
  not, Option-cases, is_empty, All-mem,
}
use mytradingsystem.Risk.Configuration.{
  LimitType, LimitType-discrete, same_type, LimitRecord, is_effective, effective_records, latest,
  missing_types, sorted_limit_types, risk_per_trade, daily_loss, open_positions,
  instrument_exposure, quote_age, spread, weekly_loss, drawdown, gross_exposure, net_exposure,
  orders_per_minute, consecutive_losses, sector_exposure, strategy_allocation, slippage,
  options_exposure, portfolio_delta, portfolio_gamma,
}
use mytradingsystem.Risk.Configuration.Ordering.{
  Descending, effective-Descending, effective_mem, mem_effective, same_type_eq, same_type_refl,
}

-- The first record of its type in a descending list.
latest_first :
    (t : LimitType) (xs : List LimitRecord) {r : LimitRecord}
    → Descending xs
    → latest t xs ≡ some r
    → Memᴰ r xs
      × (r.limit_type ≡ t)
      × ((s : LimitRecord) → Memᴰ s xs → s.limit_type ≡ t → s.effective_from ≤ r.effective_from)
unfolding latest
latest_first t [] d h = absurd (ground arith)
latest_first t (x ∷ xs) {r} (below, d) h = elim (Bool-cases (same_type x.limit_type t)) [
  | inl e ↦
      let is : r ≡ x = ground (arith, e) in
      (
        Memᴰ.head is,
        ap (λ y. y.limit_type) is ∙ same_type_eq x.limit_type t e,
        λ s m q. elim m [
          | Memᴰ.head p ↦ rw (p, is) (ground arith)
          | Memᴰ.tail n ↦ rw is (All-mem _ s xs n below)
        ],
      )
  | inr e ↦
      let (found, of_type, newest) = latest_first t xs d (rw e at h) in
      (
        Memᴰ.tail found,
        of_type,
        λ s m q. elim m [
          | Memᴰ.head p ↦ absurd (
              ground (
                arith,
                e,
                ap (λ y. same_type y.limit_type t) p,
                same_type_refl t,
                ap (λ y. same_type y t) q,
              ))
          | Memᴰ.tail n ↦ newest s n q
        ],
      )
]

-- A record that a load at a time may take for an account.
pub record Counts (account as_of : ℕ) (r : LimitRecord) : Type 0 where
  pub of_account : r.account_id ≡ account
  pub is_enabled : r.enabled ≡ true
  pub in_force : r.effective_from ≤ as_of

-- A stored record that counts, of the type, and not older than any such.
pub record Newest (account as_of : ℕ) (t : LimitType) (rs : List LimitRecord) (r : LimitRecord)
    : Type 0 where
  pub stored : Memᴰ r rs
  pub counts : Counts account as_of r
  pub of_type : r.limit_type ≡ t
  pub newest :
      (s : LimitRecord)
      → Memᴰ s rs
      → Counts account as_of s
      → s.limit_type ≡ t
      → s.effective_from ≤ r.effective_from

effective-Counts :
    (account as_of : ℕ) (r : LimitRecord)
    → is_effective account as_of r ≡ true
    → Counts account as_of r
effective-Counts account as_of r h = record {
  of_account = ground arith;
  is_enabled = ground arith;
  in_force = ground arith;
}

Counts-effective :
    (account as_of : ℕ) (r : LimitRecord)
    → Counts account as_of r
    → is_effective account as_of r ≡ true
Counts-effective account as_of r c = ground (arith, c.of_account, c.is_enabled, c.in_force)

latest-Newest :
    (account as_of : ℕ) (t : LimitType) (rs : List LimitRecord) {r : LimitRecord}
    → latest t (effective_records account as_of rs) ≡ some r
    → Newest account as_of t rs r
latest-Newest account as_of t rs {r} h =
    let (found, of_type, newest) =
      latest_first t (effective_records account as_of rs) (effective-Descending account as_of rs)
        h in
    let (stored, effective) = effective_mem account as_of r rs found in
    record {
      stored = stored;
      counts = effective-Counts account as_of r effective;
      of_type = of_type;
      newest = λ s m e q.
          newest s (mem_effective account as_of s rs (Counts-effective account as_of s e) m) q;
    }

present_type :
    (t : LimitType) (rs : List LimitRecord) (ts : List LimitType)
    → missing_types rs ts ≡ []
    → Memᴰ t ts
    → (r : LimitRecord) × (latest t rs ≡ some r)
present_type t rs [] h m = elim m [ ]
present_type t rs (u ∷ ts) h m = elim (Option-cases (latest u rs)) [
  | inl q ↦ absurd (ground (arith, q))
  | inr (r, q) ↦ elim m [
    | Memᴰ.head e ↦ (r, ap (λ v. latest v rs) e ∙ q)
    | Memᴰ.tail n ↦ present_type t rs ts (ground (arith, q)) n
  ]
]

listed : (t : LimitType) (ts : List LimitType) → any (λ u. same_type t u) ts ≡ true → Memᴰ t ts
listed t [] h = absurd (ground arith)
listed t (u ∷ ts) h = elim (Bool-cases (same_type t u)) [
  | inl e ↦ Memᴰ.head (same_type_eq t u e)
  | inr e ↦ Memᴰ.tail (listed t ts (rw e at h))
]

all_listed : (t : LimitType) → any (λ u. same_type t u) sorted_limit_types ≡ true
unfolding LimitType-discrete
all_listed risk_per_trade = refl
all_listed daily_loss = refl
all_listed open_positions = refl
all_listed instrument_exposure = refl
all_listed quote_age = refl
all_listed spread = refl
all_listed weekly_loss = refl
all_listed drawdown = refl
all_listed gross_exposure = refl
all_listed net_exposure = refl
all_listed orders_per_minute = refl
all_listed consecutive_losses = refl
all_listed sector_exposure = refl
all_listed strategy_allocation = refl
all_listed slippage = refl
all_listed options_exposure = refl
all_listed portfolio_delta = refl
all_listed portfolio_gamma = refl

every_type : (t : LimitType) → Memᴰ t sorted_limit_types
every_type t = listed t sorted_limit_types (all_listed t)

nothing_left : (ts : List LimitType) → not (is_empty ts) ≡ false → ts ≡ []
nothing_left [] h = refl
nothing_left (t ∷ ts) h = absurd (ground arith)

-- Every type has a record, whatever is loaded.
pub complete_record :
    (account as_of : ℕ) (t : LimitType) (rs : List LimitRecord)
    → not (is_empty (missing_types (effective_records account as_of rs) sorted_limit_types)) ≡ false
    → (r : LimitRecord) × (latest t (effective_records account as_of rs) ≡ some r)
      × Newest account as_of t rs r
complete_record account as_of t rs nothing =
    let (r, taken) =
      present_type t (effective_records account as_of rs) sorted_limit_types
        (nothing_left _ nothing) (every_type t) in
    (r, taken, latest-Newest account as_of t rs taken)
