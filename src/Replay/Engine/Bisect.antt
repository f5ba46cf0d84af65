-- ===== src/Replay/Engine/Bisect.antt =====
-- `bisect.bisect_right`, and what it finds in a sorted list.
use mytradingsystem.Base.{
  List, ℕ, Option, length, Bool, false, some, suc, ltb, ◌+◌, ◌/◌, if◌then◌else◌, get_elem?, none,
  zero, All, ◌<◌, ◌≡◌, ◌≤◌, arith, ◌-◌, Bool-cases, inl, inr, ltb→lt, [], ◌∷◌, leb, refl,
}

abbrev pub before : ℕ → Option ℕ → Bool
before x none = false
before x (some y) = ltb x y

-- The loop on `lo` and `hi`; each round shrinks the gap, so as much fuel as the gap is enough.
unfoldable pub bisect_loop : ℕ → List ℕ → ℕ → ℕ → ℕ → ℕ
bisect_loop zero xs x lo hi = lo
bisect_loop (suc fuel) xs x lo hi =
    let mid = (lo + hi) / 2 in
    let left = bisect_loop fuel xs x lo mid in
    let right = bisect_loop fuel xs x (mid + 1) hi in
    if ltb lo hi then (if before x (get_elem? xs mid) then left else right) else lo

unfoldable pub bisect_right : List ℕ → ℕ → ℕ
unfolding bisect_loop
bisect_right xs x = bisect_loop (length xs) xs x 0 (length xs)

-- How many elements are at most `x`.
abbrev pub count_le : ℕ → List ℕ → ℕ
count_le x [] = 0
count_le x (y ∷ ys) = let rest = count_le x ys in if leb y x then suc rest else rest

abbrev pub Ascending : List ℕ → Type 0
Ascending [] = Unit
Ascending (x ∷ xs) = All (λ y. x ≤ y) xs × Ascending xs

count_le-none : (x y : ℕ) (ys : List ℕ) → x < y → All (λ z. y ≤ z) ys → count_le x ys ≡ 0
count_le-none x y [] h a = refl
count_le-none x y (z ∷ zs) h a = ground (arith, count_le-none x y zs h a.1)

pub count_le-length : (x : ℕ) (ys : List ℕ) → count_le x ys ≤ length ys
count_le-length x [] = omega arith
count_le-length x (y ∷ ys) = ground (arith, count_le-length x ys)

All-get :
    (y : ℕ) (ys : List ℕ) (i : ℕ) {v : ℕ} → All (λ z. y ≤ z) ys → get_elem? ys i ≡ some v → y ≤ v
All-get y [] i a h = cc
All-get y (z ∷ zs) zero a h = ground arith
All-get y (z ∷ zs) (suc i) a h = All-get y zs i a.1 h

count_le-after :
    (x : ℕ) (xs : List ℕ) (i : ℕ) {v : ℕ}
    → Ascending xs
    → get_elem? xs i ≡ some v
    → x < v
    → count_le x xs ≤ i
count_le-after x [] i a h l = cc
count_le-after x (y ∷ ys) zero a h l = ground (arith, count_le-none x y ys)
count_le-after x (y ∷ ys) (suc i) a h l = ground (arith, count_le-after x ys i a.1 h l)

count_le-before :
    (x : ℕ) (xs : List ℕ) (i : ℕ) {v : ℕ}
    → Ascending xs
    → get_elem? xs i ≡ some v
    → v ≤ x
    → i < count_le x xs
count_le-before x [] i a h l = cc
count_le-before x (y ∷ ys) zero a h l = ground arith
count_le-before x (y ∷ ys) (suc i) a h l =
    ground (arith, count_le-before x ys i a.1 h l, All-get y ys i a.0 h)

get_elem?-some : (xs : List ℕ) (i : ℕ) → i < length xs → (v : ℕ) × (get_elem? xs i ≡ some v)
get_elem?-some [] i h = elim h [ ]
get_elem?-some (x ∷ xs) zero h = (x, refl)
get_elem?-some (x ∷ xs) (suc i) h = get_elem?-some xs i (omega arith)

bisect_loop-eq :
    (fuel : ℕ) (xs : List ℕ) (x lo hi : ℕ)
    → Ascending xs
    → hi ≤ length xs
    → lo ≤ count_le x xs
    → count_le x xs ≤ hi
    → hi - lo ≤ fuel
    → bisect_loop fuel xs x lo hi ≡ count_le x xs
unfolding bisect_loop
bisect_loop-eq zero xs x lo hi a n l h f = omega arith
bisect_loop-eq (suc fuel) xs x lo hi a n l h f = elim (Bool-cases (ltb lo hi)) [
  | inr stop ↦ ground arith
  | inl go ↦
      let mid = (lo + hi) / 2 in
      let lt = ltb→lt lo hi go in
      let (v, q) = get_elem?-some xs mid (omega arith) in
      elim (Bool-cases (ltb x v)) [
        | inl left ↦
            let ih =
              bisect_loop-eq fuel xs x lo mid a (omega arith) l
                (count_le-after x xs mid a q (ltb→lt x v left)) (omega arith) in
            ground arith
        | inr right ↦
            let le : v ≤ x = ground arith in
            let ih =
              bisect_loop-eq fuel xs x (mid + 1) hi a n
                (omega (arith, count_le-before x xs mid a q le)) h (omega arith) in
            ground arith
      ]
]

-- In an ascending list the search finds how many elements are at most `x`.
pub bisect_right-eq : (xs : List ℕ) (x : ℕ) → Ascending xs → bisect_right xs x ≡ count_le x xs
unfolding bisect_right
bisect_right-eq xs x a =
    bisect_loop-eq (length xs) xs x 0 (length xs) a (omega arith) (omega arith)
      (count_le-length x xs) (omega arith)
