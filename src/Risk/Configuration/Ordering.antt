-- ===== src/Risk/Configuration/Ordering.antt =====
-- The effective records, newest first.
use mathlib.Core.List.{Memᴰ}
use mytradingsystem.Base.{
  Bool, ℕ, List, [], ◌∷◌, All, ◌≡◌, ◌≤◌, inl, inr, true, false, arith, refl, sym, ap, leb,
  Bool-cases, ◌∙◌,
}
use mytradingsystem.Risk.Configuration.{
  LimitType, LimitType-discrete, same_type, LimitRecord, is_effective, insert_latest,
  effective_records,
}

abbrev pub AtMost : ℕ → List LimitRecord → Type 0
AtMost n xs = All (λ x. x.effective_from ≤ n) xs

abbrev pub Descending : List LimitRecord → Type 0
Descending [] = Unit
Descending (x ∷ xs) = AtMost x.effective_from xs × Descending xs

decided_eq :
    {a b : LimitType} (d : Dec (a ≡ b))
    → elim d as (λ _. Bool) [ yes h ↦ true | no h ↦ false ] ≡ true
    → a ≡ b
decided_eq (yes h) e = h
decided_eq (no h) e = absurd (ground arith)

pub same_type_eq : (a b : LimitType) → same_type a b ≡ true → a ≡ b
same_type_eq a b h = decided_eq (LimitType-discrete a b) h

decided_refl :
    {a : LimitType} (d : Dec (a ≡ a)) → elim d as (λ _. Bool) [ yes h ↦ true | no h ↦ false ] ≡ true
decided_refl (yes h) = refl
decided_refl (no h) = absurd (h refl)

pub same_type_refl : (a : LimitType) → same_type a a ≡ true
same_type_refl a = decided_refl (LimitType-discrete a a)

AtMost-insert :
    (n : ℕ) (r : LimitRecord) (xs : List LimitRecord)
    → r.effective_from ≤ n
    → AtMost n xs
    → AtMost n (insert_latest r xs)
AtMost-insert n r [] le h = (le, tt)
AtMost-insert n r (x ∷ xs) le h = elim (Bool-cases (leb x.effective_from r.effective_from)) [
  | inl e ↦ ground (arith, e)
  | inr e ↦ rw e (h.0, AtMost-insert n r xs le h.1)
]

AtMost-le : (m n : ℕ) (xs : List LimitRecord) → m ≤ n → AtMost m xs → AtMost n xs
AtMost-le m n [] le h = tt
AtMost-le m n (x ∷ xs) le h = (omega (arith, h.0), AtMost-le m n xs le h.1)

Descending-insert :
    (r : LimitRecord) (xs : List LimitRecord) → Descending xs → Descending (insert_latest r xs)
Descending-insert r [] h = (tt, tt)
Descending-insert r (x ∷ xs) (below, rest) =
    elim (Bool-cases (leb x.effective_from r.effective_from)) [
      | inl e ↦
          let le : x.effective_from ≤ r.effective_from = ground (arith, e) in
          rw e ((le, AtMost-le x.effective_from r.effective_from xs le below), (below, rest))
      | inr e ↦ rw e (
        AtMost-insert x.effective_from r xs (ground (arith, e)) below,
        Descending-insert r xs rest,
      )
    ]

pub effective-Descending :
    (account as_of : ℕ) (rs : List LimitRecord) → Descending (effective_records account as_of rs)
unfolding effective_records
effective-Descending account as_of [] = tt
effective-Descending account as_of (r ∷ rs) = elim (Bool-cases (is_effective account as_of r)) [
  | inl e ↦ rw e (Descending-insert r _ (effective-Descending account as_of rs))
  | inr e ↦ rw e (effective-Descending account as_of rs)
]

-- What is inserted, and what was there.
mem_insert :
    (s r : LimitRecord) (xs : List LimitRecord) → Memᴰ s (r ∷ xs) → Memᴰ s (insert_latest r xs)
mem_insert s r [] m = m
mem_insert s r (x ∷ xs) m = elim (Bool-cases (leb x.effective_from r.effective_from)) [
  | inl e ↦ rw e m
  | inr e ↦ rw e (elim m [
    | Memᴰ.head q ↦ Memᴰ.tail (mem_insert s r xs (Memᴰ.head q))
    | Memᴰ.tail n ↦ elim n [
      | Memᴰ.head q ↦ Memᴰ.head q
      | Memᴰ.tail o ↦ Memᴰ.tail (mem_insert s r xs (Memᴰ.tail o))
    ]
  ])
]

swapped :
    (s r x : LimitRecord) (xs : List LimitRecord)
    → (Memᴰ s (insert_latest r xs) → Memᴰ s (r ∷ xs))
    → Memᴰ s (x ∷ insert_latest r xs)
    → Memᴰ s (r ∷ x ∷ xs)
swapped s r x xs ih (Memᴰ.head q) = Memᴰ.tail (Memᴰ.head q)
swapped s r x xs ih (Memᴰ.tail m) = elim (ih m) [
  | Memᴰ.head q ↦ Memᴰ.head q
  | Memᴰ.tail n ↦ Memᴰ.tail (Memᴰ.tail n)
]

insert_mem :
    (s r : LimitRecord) (xs : List LimitRecord) → Memᴰ s (insert_latest r xs) → Memᴰ s (r ∷ xs)
insert_mem s r [] m = m
insert_mem s r (x ∷ xs) m = elim (Bool-cases (leb x.effective_from r.effective_from)) [
  | inl e ↦ rw e at m
  | inr e ↦ swapped s r x xs (insert_mem s r xs) (rw e at m)
]

pub effective_mem :
    (account as_of : ℕ) (s : LimitRecord) (rs : List LimitRecord)
    → Memᴰ s (effective_records account as_of rs)
    → Memᴰ s rs × (is_effective account as_of s ≡ true)
unfolding effective_records
effective_mem account as_of s [] m = elim m [ ]
effective_mem account as_of s (r ∷ rs) m = elim (Bool-cases (is_effective account as_of r)) [
  | inl e ↦ elim (insert_mem s r _ (rw e at m)) [
    | Memᴰ.head q ↦ (Memᴰ.head q, ap (is_effective account as_of) q ∙ e)
    | Memᴰ.tail n ↦
        let (found, effective) = effective_mem account as_of s rs n in (Memᴰ.tail found, effective)
  ]
  | inr e ↦
      let (found, effective) = effective_mem account as_of s rs (rw e at m) in
      (Memᴰ.tail found, effective)
]

pub mem_effective :
    (account as_of : ℕ) (s : LimitRecord) (rs : List LimitRecord)
    → is_effective account as_of s ≡ true
    → Memᴰ s rs
    → Memᴰ s (effective_records account as_of rs)
unfolding effective_records
mem_effective account as_of s [] h m = elim m [ ]
mem_effective account as_of s (r ∷ rs) h (Memᴰ.head q) =
    rw (sym (ap (is_effective account as_of) q) ∙ h) (mem_insert s r _ (Memᴰ.head q))
mem_effective account as_of s (r ∷ rs) h (Memᴰ.tail m) =
    let rest = mem_effective account as_of s rs h m in
    elim (Bool-cases (is_effective account as_of r)) [
      | inl e ↦ rw e (mem_insert s r _ (Memᴰ.tail rest))
      | inr e ↦ rw e rest
    ]
