-- ===== src/Float/Grid.antt =====
-- A concrete type of floats for the examples: whole numbers with NaN and the two infinities.
-- Division rounds towards zero, and the next value up is the next whole number,
-- which after -Inf is -1000.
use geometry.Prelude.{ℕ, zero, suc, ◌+◌, ◌-◌, ◌*◌, ◌/◌, ◌≡◌, refl, Bool, true, false, arith}
use geometry.Prelude.Tests.{ltb, leb, ◌==◌, if◌then◌else◌}
use geometry.Float.{Float}
use geometry.Float.Laws.{IsOrdered, IsExtended, is_between, is_inf}

-- The native numbers' version of ℤ: `negsuc n` is -(n + 1).
pub data ℤ : Type 0 where
  pos : ℕ → ℤ
  negsuc : ℕ → ℤ

abbrev pub sub_ℕ : ℕ → ℕ → ℤ
sub_ℕ a b = if leb b a then pos (a - b) else negsuc (b - a - 1)

abbrev pub pos_part : ℤ → ℕ
pos_part (pos n) = n
pos_part (negsuc n) = 0

abbrev pub neg_part : ℤ → ℕ
neg_part (pos n) = 0
neg_part (negsuc n) = suc n

abbrev neg_ℤ : ℤ → ℤ
neg_ℤ i = sub_ℕ (neg_part i) (pos_part i)

abbrev add_ℤ : ℤ → ℤ → ℤ
add_ℤ i j = sub_ℕ (pos_part i + pos_part j) (neg_part i + neg_part j)

abbrev mul_ℤ : ℤ → ℤ → ℤ
mul_ℤ i j =
    sub_ℕ (pos_part i * pos_part j + neg_part i * neg_part j)
      (pos_part i * neg_part j + neg_part i * pos_part j)

-- The magnitude and the sign of a quotient.
abbrev div_ℤ : ℤ → ℤ → ℤ
div_ℤ (pos a) (pos b) = pos (a / b)
div_ℤ (pos a) (negsuc b) = sub_ℕ 0 (a / suc b)
div_ℤ (negsuc a) (pos b) = sub_ℕ 0 (suc a / b)
div_ℤ (negsuc a) (negsuc b) = pos (suc a / suc b)

abbrev ltb_ℤ : ℤ → ℤ → Bool
ltb_ℤ i j = ltb (pos_part i + neg_part j) (pos_part j + neg_part i)

pub data Grid : Type 0 where
  nan neg_inf pos_inf : Grid
  fin : ℤ → Grid

abbrev opposite : Grid → Grid
opposite nan = nan
opposite neg_inf = pos_inf
opposite pos_inf = neg_inf
opposite (fin i) = fin (neg_ℤ i)

abbrev add : Grid → Grid → Grid
add nan b = nan
add (fin i) (fin j) = fin (add_ℤ i j)
add (fin i) b = b
add neg_inf nan = nan
add neg_inf pos_inf = nan
add neg_inf b = neg_inf
add pos_inf nan = nan
add pos_inf neg_inf = nan
add pos_inf b = pos_inf

-- An infinity with the sign of the integer; 0 * ±Inf and ±Inf / 0 are left to the callers.
abbrev signed : Grid → ℤ → Grid
signed a (pos n) = a
signed a (negsuc n) = opposite a

abbrev mul : Grid → Grid → Grid
mul nan b = nan
mul (fin i) (fin j) = fin (mul_ℤ i j)
mul (fin i) nan = nan
mul (fin (pos zero)) b = nan
mul (fin i) b = signed b i
mul a (fin (pos zero)) = nan
mul a (fin j) = signed a j
mul a nan = nan
mul neg_inf b = opposite b
mul pos_inf b = b

abbrev div : Grid → Grid → Grid
div nan b = nan
div (fin (pos zero)) (fin (pos zero)) = nan
div (fin i) (fin (pos zero)) = signed pos_inf i
div (fin i) (fin j) = fin (div_ℤ i j)
div (fin i) nan = nan
div (fin i) b = fin (pos 0)
div a (fin j) = signed a j
div a b = nan

abbrev less : Grid → Grid → Bool
less nan b = false
less (fin i) (fin j) = ltb_ℤ i j
less (fin i) pos_inf = true
less (fin i) b = false
less neg_inf nan = false
less neg_inf neg_inf = false
less neg_inf b = true
less pos_inf b = false

abbrev same : Grid → Grid → Bool
same (fin i) (fin j) = pos_part i + neg_part j == pos_part j + neg_part i
same neg_inf neg_inf = true
same pos_inf pos_inf = true
same a b = false

abbrev next_up : Grid → Grid
next_up (fin i) = fin (add_ℤ i (pos 1))
next_up neg_inf = fin (negsuc 999)
next_up a = a

instance abbrev pub grid_float : Float Grid
grid_float = record {
  const = λ n. fin (pos n);
  add = add;
  sub = λ a b. add a (opposite b);
  mul = mul;
  div = div;
  less = less;
  same = same;
  nan = nan;
  inf = pos_inf;
  neg_inf = neg_inf;
  next_up = next_up;
}

less_cotrans :
    (a x b : Grid) → same x x ≡ true → less a b ≡ true → less a x ≡ false → less x b ≡ true
less_cotrans a x b h k l = ground arith

pub Grid-IsOrdered : IsOrdered Grid
Grid-IsOrdered = record {
  less_asymm = λ a b h. ground arith;
  less_cotrans = less_cotrans;
  less_number = λ a b h. ground arith;
  same_comm = λ a b h. ground arith;
  same_number = λ a b h. ground arith;
  same_not_less = λ a b h. ground arith;
  same_of_not_less = λ a b h k l m. ground arith;
}

-- What is not 0 divides to a finite number.
div_finite : (i j : ℤ) → same (fin j) (fin (pos 0)) ≡ false → is_inf (div (fin i) (fin j)) ≡ false
div_finite (pos zero) (pos zero) h = cc
div_finite (pos (suc n)) (pos zero) h = cc
div_finite (negsuc n) (pos zero) h = cc
div_finite (pos zero) (pos (suc m)) h = refl
div_finite (pos (suc n)) (pos (suc m)) h = refl
div_finite (negsuc n) (pos (suc m)) h = refl
div_finite (pos zero) (negsuc m) h = refl
div_finite (pos (suc n)) (negsuc m) h = refl
div_finite (negsuc n) (negsuc m) h = refl

sub_nonzero :
    (c d : ℤ) → same (fin c) (fin d) ≡ false → same (fin (add_ℤ d (neg_ℤ c))) (fin (pos 0)) ≡ false
sub_nonzero c d h = ground arith

by_greater :
    (y c d : Grid)
    → same c d ≡ false
    → is_between y c d ≡ true
    → is_inf (div (add y (opposite c)) (add d (opposite c))) ≡ false
by_greater (fin i) (fin j) (fin k) h b =
    div_finite (add_ℤ i (neg_ℤ j)) (add_ℤ k (neg_ℤ j)) (sub_nonzero j k h)
by_greater nan c d h b = refl
by_greater neg_inf c d h b = ground arith
by_greater pos_inf c d h b = ground arith
by_greater (fin i) nan d h b = refl
by_greater (fin i) neg_inf d h b = ground arith
by_greater (fin i) pos_inf d h b = ground arith
by_greater (fin i) (fin j) nan h b = ground arith
by_greater (fin i) (fin j) neg_inf h b = ground arith
by_greater (fin i) (fin j) pos_inf h b = ground arith

pub Grid-IsExtended : IsExtended Grid
Grid-IsExtended = record {
  inf_greatest = λ a. ground arith;
  neg_inf_least = λ a. ground arith;
  zero_by_zero = λ y c d h k. ground arith;
  by_zero = λ x a b h k. ground arith;
  by_greater = by_greater;
}
