-- ===== src/Queue/Swap.antt =====
-- Writes and swaps in a list.
use mathlib.Core.List.{Permᴰ}
use geometry.Prelude.{ℕ, zero, suc, ◌<◌, ◌≤◌, ◌≡◌, refl, none, some, List, [], ◌∷◌, ◌++◌, arith}
use geometry.Prelude.Tests.{ltb, ◌==◌, if◌then◌else◌}
use geometry.Prelude.Lists.{length, get_elem?, set, take}
use geometry.Queue.{swap}

module _ {ℓ} {A : Type ℓ} where
  pub Permᴰ-refl : (xs : List A) → Permᴰ xs xs
  Permᴰ-refl [] = Permᴰ.nil
  Permᴰ-refl (x ∷ xs) = Permᴰ.cons refl (Permᴰ-refl xs)

  pub length-Permᴰ : {xs ys : List A} → Permᴰ xs ys → length xs ≡ length ys
  length-Permᴰ Permᴰ.nil = refl
  length-Permᴰ (Permᴰ.cons e p) = omega (arith, length-Permᴰ p)
  length-Permᴰ (Permᴰ.swap e f) = refl
  length-Permᴰ (Permᴰ.trans p q) = omega (arith, length-Permᴰ p, length-Permᴰ q)

  pub length-set : (xs : List A) (i : ℕ) (v : A) → length (set xs i v) ≡ length xs
  length-set [] i v = refl
  length-set (x ∷ xs) zero v = refl
  length-set (x ∷ xs) (suc i) v = omega (arith, length-set xs i v)

  pub get_elem?-set :
      (xs : List A) (i c : ℕ) (v : A)
      → i < length xs
      → get_elem? (set xs i v) c ≡ (if i == c then some v else get_elem? xs c)
  get_elem?-set [] i c v inside = absurd (omega arith)
  get_elem?-set (x ∷ xs) zero zero v inside = refl
  get_elem?-set (x ∷ xs) zero (suc c) v inside = ground arith
  get_elem?-set (x ∷ xs) (suc i) zero v inside = ground arith
  get_elem?-set (x ∷ xs) (suc i) (suc c) v inside = ground (arith, get_elem?-set xs i c v)

  -- What was there and the list after a write are what is written and the list before.
  set-Permᴰ :
      (xs : List A) (i : ℕ) (v : A) {old : A}
      → get_elem? xs i ≡ some old
      → Permᴰ (old ∷ set xs i v) (v ∷ xs)
  set-Permᴰ [] i v e = cc
  set-Permᴰ (x ∷ xs) zero v {old} e = Permᴰ.swap (cc) refl
  set-Permᴰ (x ∷ xs) (suc i) v e =
      Permᴰ.trans (Permᴰ.swap refl refl)
        (Permᴰ.trans (Permᴰ.cons refl (set-Permᴰ xs i v e)) (Permᴰ.swap refl refl))

  pub swap-Permᴰ :
      (xs : List A) (i j : ℕ) {a b : A}
      → get_elem? xs i ≡ some a
      → get_elem? xs j ≡ some b
      → Permᴰ (swap xs i a j b) xs
  swap-Permᴰ [] i j ea eb = cc
  swap-Permᴰ (x ∷ xs) zero zero ea eb = Permᴰ.cons (cc) (Permᴰ-refl xs)
  swap-Permᴰ (x ∷ xs) zero (suc j) {a} {b} ea eb =
      Permᴰ.trans (set-Permᴰ xs j a eb) (Permᴰ.cons (cc) (Permᴰ-refl xs))
  swap-Permᴰ (x ∷ xs) (suc i) zero {a} {b} ea eb =
      Permᴰ.trans (set-Permᴰ xs i b ea) (Permᴰ.cons (cc) (Permᴰ-refl xs))
  swap-Permᴰ (x ∷ xs) (suc i) (suc j) ea eb = Permᴰ.cons refl (swap-Permᴰ xs i j ea eb)

  pub length-swap : (xs : List A) (i j : ℕ) (a b : A) → length (swap xs i a j b) ≡ length xs
  length-swap xs i j a b = omega (arith, length-set (set xs i b) j a, length-set xs i b)

  pub get_elem?-swap :
      (xs : List A) (i j : ℕ) (a b : A)
      → i < length xs
      → j < length xs
      → (c : ℕ)
      → get_elem? (swap xs i a j b) c
        ≡ (if j == c then some a else if i == c then some b else get_elem? xs c)
  get_elem?-swap xs i j a b hi hj c =
      ground (arith, length-set xs i b, get_elem?-set (set xs i b) j c a, get_elem?-set xs i c b)

  pub last-Permᴰ : (xs : List A) (x : A) → Permᴰ (xs ++ (x ∷ [])) (x ∷ xs)
  last-Permᴰ [] x = Permᴰ-refl (x ∷ [])
  last-Permᴰ (y ∷ xs) x = Permᴰ.trans (Permᴰ.cons refl (last-Permᴰ xs x)) (Permᴰ.swap refl refl)

  -- The last entry, and those before it.
  pub init-Permᴰ :
      (x : A) (xs : List A) {last : A}
      → get_elem? (x ∷ xs) (length xs) ≡ some last
      → Permᴰ (last ∷ take (length xs) (x ∷ xs)) (x ∷ xs)
  init-Permᴰ x [] e = Permᴰ.cons (cc) Permᴰ.nil
  init-Permᴰ x (y ∷ ys) e = Permᴰ.trans (Permᴰ.swap refl refl) (Permᴰ.cons refl (init-Permᴰ y ys e))

  pub get_elem?-last :
      (xs : List A) (x : A) (c : ℕ)
      → get_elem? (xs ++ (x ∷ [])) c ≡ (if c == length xs then some x else get_elem? xs c)
  get_elem?-last [] x zero = refl
  get_elem?-last [] x (suc c) = ground arith
  get_elem?-last (y ∷ xs) x zero = ground arith
  get_elem?-last (y ∷ xs) x (suc c) = ground (arith, get_elem?-last xs x c)

  pub get_elem?-out : (xs : List A) (c : ℕ) → length xs ≤ c → get_elem? xs c ≡ none
  get_elem?-out [] c out = refl
  get_elem?-out (x ∷ xs) zero out = absurd (omega arith)
  get_elem?-out (x ∷ xs) (suc c) out = get_elem?-out xs c (omega arith)

  pub get_elem?-take :
      (n : ℕ) (xs : List A) (c : ℕ)
      → get_elem? (take n xs) c ≡ (if ltb c n then get_elem? xs c else none)
  get_elem?-take zero xs c = ground arith
  get_elem?-take (suc n) [] c = ground arith
  get_elem?-take (suc n) (x ∷ xs) zero = ground arith
  get_elem?-take (suc n) (x ∷ xs) (suc c) = ground (arith, get_elem?-take n xs c)
