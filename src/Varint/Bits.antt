-- ===== src/Varint/Bits.antt =====
-- Masks and shifted fields in plain arithmetic.
use Prim.Native.Nat.{max, bit_and, bit_or, digits, bit_or-bitwise}
use native.Mathlib.Nat.{pow-suc}
use geometry.Prelude.{
  ℕ, zero, suc, ◌+◌, ◌-◌, ap, ◌*◌, ◌/◌, ◌%◌, ◌^◌, ◌≤◌, ◌<◌, ◌≡◌, refl, Bool, true, arith, ◌&&◌,
}
use geometry.Prelude.Tests.{◌==◌}

-- A test that holds of every number below a limit, as a computation.
module _ (p : ℕ → Bool) where
  holds_below : ℕ → Bool
  holds_below zero = true
  holds_below (suc limit) = holds_below limit && p limit

  holds_below-at : (limit b : ℕ) → b < limit → holds_below limit ≡ true → p b ≡ true
  unfolding holds_below
  holds_below-at zero b inside h = absurd (omega arith)
  holds_below-at (suc limit) b inside h = ground (arith, holds_below-at limit b)

masks_low : ℕ → Bool
masks_low b = bit_and b 0x7f == b % 128

sets_top : ℕ → Bool
sets_top b = bit_or b 0x80 == b % 128 + 128

masks_low-byte : holds_below masks_low 256 ≡ true
unfolding holds_below masks_low
masks_low-byte = refl

sets_top-byte : holds_below sets_top 256 ≡ true
unfolding holds_below sets_top
sets_top-byte = refl

pub low_bits : (b : ℕ) → b < 256 → bit_and b 0x7f ≡ b % 128
unfolding masks_low
low_bits b byte = ground (arith, holds_below-at masks_low 256 b byte masks_low-byte)

pub top_bit : (b : ℕ) → b < 256 → bit_or b 0x80 ≡ b % 128 + 128
unfolding sets_top
top_bit b byte = ground (arith, holds_below-at sets_top 256 b byte sets_top-byte)

-- The digits of x or y, with fuel.
or_digits : ℕ → ℕ → ℕ → ℕ
or_digits = digits (λ y. y) max

or_digits-nothing : (fuel y : ℕ) → or_digits fuel 0 y ≡ y
unfolding or_digits
or_digits-nothing zero y = refl
or_digits-nothing (suc fuel) y = refl

-- More fuel than x changes nothing.
or_digits-enough :
    (x extra y fuel : ℕ) → x ≤ fuel → or_digits (fuel + extra) x y ≡ or_digits fuel x y
unfolding or_digits
or_digits-enough zero extra y fuel enough =
    rw (or_digits-nothing (fuel + extra) y, or_digits-nothing fuel y)
or_digits-enough (suc x) extra y zero enough = absurd (omega arith)
or_digits-enough (suc x) extra y (suc fuel) enough =
    let e : suc fuel + extra ≡ suc (fuel + extra) = omega arith in
    rw (e, or_digits-enough (suc x / 2) extra (y / 2) fuel (omega arith))

bit_or-halves : (x y : ℕ) → bit_or x y ≡ max (x % 2) (y % 2) + 2 * bit_or (x / 2) (y / 2)
unfolding or_digits
bit_or-halves zero y = simp bit_or-bitwise (omega arith)
bit_or-halves (suc x) y =
    let half = suc x / 2 in
    let fuel : half + (x - half) ≡ x = omega arith in
    omega (
      arith,
      bit_or-bitwise (suc x) y,
      bit_or-bitwise half (y / 2),
      ap (λ (n : ℕ). or_digits n half (y / 2)) fuel,
      or_digits-enough half (x - half) (y / 2) half (omega arith),
    )

-- A field at bit s joins the s bits below it.
pub bit_or_field : (s x y : ℕ) → x < 2 ^ s → bit_or x (y * 2 ^ s) ≡ x + y * 2 ^ s
bit_or_field zero x y h =
    let e : x ≡ 0 = omega arith in rw e (omega (arith, bit_or-bitwise 0 (y * 1)))
bit_or_field (suc s) x y h =
    let double : y * 2 ^ suc s ≡ y * 2 ^ s * 2 = rw pow-suc (omega arith) in
    let half : y * 2 ^ s * 2 / 2 ≡ y * 2 ^ s = omega arith in
    let fits : x / 2 < 2 ^ s = omega (arith, pow-suc 2 s) in
    rw (double, bit_or-halves x (y * 2 ^ s * 2), half, bit_or_field s (x / 2) y fits) (omega arith)
