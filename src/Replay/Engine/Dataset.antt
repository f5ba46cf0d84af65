-- ===== src/Replay/Engine/Dataset.antt =====
-- The bytes that identify a dataset determine the JSON of each of its candles.
use mytradingsystem.Domain.{Candle}
use mytradingsystem.Replay.Engine.{dataset_bytes, to_bytes, Digest}
use mytradingsystem.Base.{
  List, ℕ, [], length, ◌<◌, ◌∷◌, All, ◌^◌, ◌≡◌, map, suc, zero, ◌++◌, ap, arith, cons_injective,
  refl, ap₂, ◌∙◌, sym, ◌≢◌,
}

length-to_bytes : (k n : ℕ) → length (to_bytes k n) ≡ k
unfolding to_bytes
length-to_bytes zero n = refl
length-to_bytes (suc k) n = ap suc (length-to_bytes k n)

append-cancel :
    (xs ys us vs : List ℕ) → length xs ≡ length ys → xs ++ us ≡ ys ++ vs → (xs ≡ ys) × (us ≡ vs)
append-cancel [] [] us vs l h = (refl, h)
append-cancel [] (y ∷ ys) us vs l h = absurd (omega arith)
append-cancel (x ∷ xs) [] us vs l h = absurd (omega arith)
append-cancel (x ∷ xs) (y ∷ ys) us vs l h =
    let (head, rest) = cons_injective h in
    let (eq, tail) = append-cancel xs ys us vs (omega arith) rest in
    (ap₂ (λ a b. a ∷ b) head eq, tail)

-- The value of eight bytes, with the powers of 256 written out.
to_bytes_injective : (m n : ℕ) → m < 2 ^ 64 → n < 2 ^ 64 → to_bytes 8 m ≡ to_bytes 8 n → m ≡ n
unfolding to_bytes
to_bytes_injective m n hm hn h =
    let (b7, h7) = cons_injective h in
    let (b6, h6) = cons_injective h7 in
    let (b5, h5) = cons_injective h6 in
    let (b4, h4) = cons_injective h5 in
    let (b3, h3) = cons_injective h4 in
    let (b2, h2) = cons_injective h3 in
    let (b1, h1) = cons_injective h2 in let (b0, h0) = cons_injective h1 in omega arith

bytes_not_nil : (n : ℕ) (rest : List ℕ) → to_bytes 8 n ++ rest ≢ []
unfolding to_bytes
bytes_not_nil n rest h = cc

-- Two datasets with the same bytes have the same JSON, candle for candle: no two lists of candles
-- that differ in a dump, in number or in order share the bytes that are hashed.
pub dataset_bytes_injective :
    (d : Digest) (cs ds : List Candle)
    → All (λ c. length (d.dump c) < 2 ^ 64) cs
    → All (λ c. length (d.dump c) < 2 ^ 64) ds
    → dataset_bytes d cs ≡ dataset_bytes d ds
    → map d.dump cs ≡ map d.dump ds
unfolding dataset_bytes
dataset_bytes_injective d [] [] hc hd h = refl
dataset_bytes_injective d [] (y ∷ ys) hc hd h = absurd (bytes_not_nil (length (d.dump y)) _ (sym h))
dataset_bytes_injective d (x ∷ xs) [] hc hd h = absurd (bytes_not_nil (length (d.dump x)) _ h)
dataset_bytes_injective d (x ∷ xs) (y ∷ ys) hc hd h =
    let (size, rest) =
      append-cancel (to_bytes 8 (length (d.dump x))) (to_bytes 8 (length (d.dump y)))
        (d.dump x ++ dataset_bytes d xs) (d.dump y ++ dataset_bytes d ys)
        (length-to_bytes 8 (length (d.dump x)) ∙ sym (length-to_bytes 8 (length (d.dump y)))) h in
    let same = to_bytes_injective _ _ hc.0 hd.0 size in
    let (dump, tail) = append-cancel (d.dump x) (d.dump y) _ _ same rest in
    ap₂ (λ a b. a ∷ b) dump (dataset_bytes_injective d xs ys hc.1 hd.1 tail)
