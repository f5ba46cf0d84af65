-- ===== src/Base/Dicts.antt =====
-- A Python dict as an association list in insertion order, over keys with a test of equality.
use mathlib.Core.Path.{◌≡◌, refl, ap, ap₂, ◌∙◌}
use mathlib.Core.Logic.{◌≢◌, ◌↔◌, inl, inr}
use mathlib.Core.Bool.{Bool, true, ◌&&◌}
use mathlib.Core.Option
use mathlib.Core.Option.{Option, none, some}
use mathlib.Core.List.{List, [], ◌∷◌, ◌++◌}
use Prim.Native.Nat.{ℕ}
use Prim.Native.String.{String}
use text.Mathlib.Text.{◌==◌ as str_eq}
use text.Mathlib.TextEquality.{eq_iff}
use native.Mathlib.Omega.{arith}
use mytradingsystem.Base.Tests.{◌==◌, if◌then◌else◌, is_some, Bool-cases}

-- Equality of keys as the program tests it.
pub record KeyTest {ℓ} (A : Type ℓ) : Type ℓ where
  pub same : A → A → Bool
  pub same_iff : (a b : A) → (same a b ≡ true) ↔ (a ≡ b)

pub nat_test_iff : (a b : ℕ) → ((a == b) ≡ true) ↔ (a ≡ b)
nat_test_iff a b = ground arith

instance abbrev pub nat_keys : KeyTest ℕ
nat_keys = record { same = ◌==◌; same_iff = nat_test_iff }

instance abbrev pub text_keys : KeyTest String
text_keys = record { same = str_eq; same_iff = eq_iff }

-- A key of two numbers.
abbrev pub same_pair : ℕ × ℕ → ℕ × ℕ → Bool
same_pair (a, b) (x, y) = a == x && b == y

same_pair-eq : (a b x y : ℕ) → same_pair (a, b) (x, y) ≡ true → (a ≡ x) × (b ≡ y)
same_pair-eq a b x y h = ground arith

pub pair_test_iff : (p q : ℕ × ℕ) → (same_pair p q ≡ true) ↔ (p ≡ q)
pair_test_iff (a, b) (x, y) = (
  λ h. let (l, r) = same_pair-eq a b x y h in ap₂ (λ u v. (u, v)) l r,
  λ h. rw (ap (λ p. p.0) h, ap (λ p. p.1) h) (ground arith),
)

instance abbrev pub pair_keys : KeyTest (ℕ × ℕ)
pair_keys = record { same = same_pair; same_iff = pair_test_iff }

abbrev pub Dict {ℓ κ} : Type ℓ → Type κ → Type (ℓ ⊔ κ)
Dict K V = List (K × V)

-- The values of a dict through a function.
abbrev pub map_values {ℓ κ μ} :
    {K : Type ℓ} {V : Type κ} {W : Type μ} → (V → W) → Dict K V → Dict K W
map_values f [] = []
map_values f ((k, v) ∷ d) = (k, f v) ∷ map_values f d

module _ {ℓ} {K : Type ℓ} ⦃e : KeyTest K⦄ where
  pub same_refl : (a : K) → e.same a a ≡ true
  same_refl a = (e.same_iff a a).1 refl

module _ {ℓ κ} {K : Type ℓ} {V : Type κ} ⦃e : KeyTest K⦄ where
  -- `d.get(k)`
  unfoldable pub lookup : K → Dict K V → Option V
  lookup k [] = none
  lookup k ((j, v) ∷ d) = if e.same k j then some v else lookup k d

  -- `k in d`
  unfoldable pub has_key : K → Dict K V → Bool
  unfolding lookup
  has_key k d = is_some (lookup k d)

  -- `d[k] = v`
  unfoldable pub insert : K → V → Dict K V → Dict K V
  insert k v [] = (k, v) ∷ []
  insert k v ((j, w) ∷ d) = if e.same k j then (j, v) ∷ d else (j, w) ∷ insert k v d

  pub lookup-insert_self : (k : K) (v : V) (d : Dict K V) → lookup k (insert k v d) ≡ some v
  unfolding lookup insert
  lookup-insert_self k v [] = rw (same_refl k)
  lookup-insert_self k v ((j, w) ∷ d) = elim (Bool-cases (e.same k j)) [
    | inl same ↦ rw (same, same)
    | inr other ↦ rw (other, other) (lookup-insert_self k v d)
  ]

  pub lookup-insert_ne :
      (j k : K) (v : V) (d : Dict K V) → j ≢ k → lookup j (insert k v d) ≡ lookup j d
  unfolding lookup insert
  lookup-insert_ne j k v [] h = ground (arith, e.same_iff j k)
  lookup-insert_ne j k v ((i, w) ∷ d) h =
      ground (arith, e.same_iff j k, e.same_iff k i, e.same_iff j i, lookup-insert_ne j k v d h)

  pub lookup-insert :
      (j k : K) (v : V) (d : Dict K V)
      → lookup j (insert k v d) ≡ (if e.same j k then some v else lookup j d)
  lookup-insert j k v d = elim (Bool-cases (e.same j k)) [
    | inl same ↦
        rw same
          (ap (λ x. lookup x (insert k v d)) ((e.same_iff j k).0 same) ∙ lookup-insert_self k v d)
    | inr other ↦
        rw other (lookup-insert_ne j k v d (λ eq. ground (arith, (e.same_iff j k).1 eq, other)))
  ]

  pub lookup-append :
      (k : K) (d c : Dict K V)
      → lookup k (d ++ c) ≡ (if has_key k d then lookup k d else lookup k c)
  unfolding has_key
  lookup-append k [] c = refl
  lookup-append k ((j, w) ∷ d) c = elim (Bool-cases (e.same k j)) [
    | inl same ↦ rw same
    | inr other ↦ rw other (lookup-append k d c)
  ]

  -- `d[k] = v` for a key that is not there yet.
  pub lookup-append_one :
      (j k : K) (v : V) (d : Dict K V)
      → lookup j (d ++ (k, v) ∷ []) ≡ (if has_key j d then lookup j d else lookup j ((k, v) ∷ []))
  lookup-append_one j k v d = lookup-append j d ((k, v) ∷ [])

pub lookup-map_values {ℓ κ μ} :
    {K : Type ℓ} {V : Type κ} {W : Type μ} ⦃e : KeyTest K⦄ (f : V → W) (k : K) (d : Dict K V)
    → lookup k (map_values f d) ≡ Option.map f (lookup k d)
unfolding lookup
lookup-map_values f k [] = refl
lookup-map_values ⦃e = e⦄ f k ((j, v) ∷ d) = elim (Bool-cases (e.same k j)) [
  | inl same ↦ rw same
  | inr other ↦ rw other (lookup-map_values f k d)
]
