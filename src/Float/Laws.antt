-- ===== src/Float/Laws.antt =====
-- The documented behaviour of float64 comparisons (IEEE 754), and what follows from it.
use geometry.Prelude.{◌≡◌, Bool, true, false, not, ◌&&◌, ◌||◌, arith}
use geometry.Prelude.Tests.{if◌then◌else◌}
use geometry.Float.{Float, ◌⊖◌, ◌⊘◌, less, same, at_most, IsNumber}

-- NaN is less than nothing; all else is a total order, where == is what lies between no two sides.
pub record IsOrdered {ℓ} (F : Type ℓ) ⦃fl : Float F⦄ : Type ℓ where
  pub less_asymm : (a b : F) → less a b ≡ true → less b a ≡ false
  pub less_cotrans : (a x b : F) → IsNumber x → less a b ≡ true → less a x ≡ false → less x b ≡ true
  pub less_number : (a b : F) → less a b ≡ true → (same a a ≡ true) × (same b b ≡ true)
  pub same_comm : (a b : F) → same a b ≡ true → same b a ≡ true
  pub same_number : (a b : F) → same a b ≡ true → IsNumber a
  pub same_not_less : (a b : F) → same a b ≡ true → less a b ≡ false
  pub same_of_not_less :
      (a b : F) → IsNumber a → IsNumber b → less a b ≡ false → less b a ≡ false → same a b ≡ true

module _ {ℓ} {F : Type ℓ} ⦃fl : Float F⦄ where
  -- p lies between a and b, in whichever order they stand
  abbrev pub is_between : F → F → F → Bool
  is_between p a b = if less a b then at_most a p && at_most p b else at_most b p && at_most p a

  -- +Inf or -Inf
  abbrev pub is_inf : F → Bool
  is_inf a = same a fl.inf || same a fl.neg_inf

-- The infinities, and quotients of differences: 0 / 0 is NaN, what else is divided by 0 is infinite,
-- and the quotient of a difference by one that is not less is not.
pub record IsExtended {ℓ} (F : Type ℓ) ⦃fl : Float F⦄ : Type ℓ where
  pub inf_greatest : (a : F) → less fl.inf a ≡ false
  pub neg_inf_least : (a : F) → less a fl.neg_inf ≡ false
  pub zero_by_zero :
      (y c d : F)
      → same y c ≡ true
      → same c d ≡ true
      → same ((y ⊖ c) ⊘ (d ⊖ c)) ((y ⊖ c) ⊘ (d ⊖ c)) ≡ false
  pub by_zero :
      (x a b : F)
      → same a b ≡ true
      → IsNumber ((x ⊖ a) ⊘ (b ⊖ a))
      → is_inf ((x ⊖ a) ⊘ (b ⊖ a)) ≡ true
  pub by_greater :
      (y c d : F) → same c d ≡ false → is_between y c d ≡ true → is_inf ((y ⊖ c) ⊘ (d ⊖ c)) ≡ false

module _ {ℓ} {F : Type ℓ} ⦃fl : Float F⦄ (laws : IsOrdered F) where
  open laws use {less_asymm, less_cotrans, less_number}

  pub less_irrefl : (a : F) → less a a ≡ false
  less_irrefl a = ground (arith, less_asymm a a)

  pub less_trans : (a b c : F) → less a b ≡ true → less b c ≡ true → less a c ≡ true
  less_trans a b c h k = less_cotrans b a c (less_number a b h).0 k (less_asymm a b h)

  pub same_trans : (a b c : F) → same a b ≡ true → same b c ≡ true → same a c ≡ true
  same_trans a b c h k =
      let back = laws.same_comm a b h in
      let back' = laws.same_comm b c k in
      laws.same_of_not_less a c (laws.same_number a b h) (laws.same_number c b back')
        (ground (
          arith,
          less_cotrans a b c (laws.same_number b a back),
          laws.same_not_less a b h,
          laws.same_not_less b c k,
        ))
        (ground (
          arith,
          less_cotrans c b a (laws.same_number b a back),
          laws.same_not_less c b back',
          laws.same_not_less b a back,
        ))

  -- Numbers are ordered one way or the other.
  pub at_most_lem : (a b : F) → IsNumber a → IsNumber b → at_most a b ≡ not (less b a)
  at_most_lem a b h k = ground (
    arith,
    less_asymm a b,
    laws.same_not_less b a,
    laws.same_comm a b,
    laws.same_of_not_less a b h k,
  )

  -- Of two numbers one is less, or they are the same.
  pub trichotomy :
      (a b : F)
      → IsNumber a
      → IsNumber b
      → (same a b ≡ (not (less a b) && not (less b a)))
        × (same b a ≡ same a b)
        × ((less a b && less b a) ≡ false)
  trichotomy a b h k = ground (
    arith,
    less_asymm a b,
    laws.same_not_less a b,
    laws.same_not_less b a,
    laws.same_comm a b,
    laws.same_comm b a,
    laws.same_of_not_less a b h k,
  )
