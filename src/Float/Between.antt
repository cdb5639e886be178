-- ===== src/Float/Between.antt =====
-- What lies between two floats.
use geometry.Prelude.{◌≡◌, true, not, ◌&&◌, ◌||◌, arith}
use geometry.Prelude.Tests.{if◌then◌else◌}
use geometry.Float.{Float, less, same, at_most, IsNumber}
use geometry.Float.Laws.{IsOrdered, is_between, at_most_lem}

module _ {ℓ} {F : Type ℓ} ⦃fl : Float F⦄ (laws : IsOrdered F) where
  open laws use {
    less_asymm, less_cotrans, less_number, same_comm, same_number, same_not_less, same_of_not_less,
  }

  -- Between two equal ends there are only they.
  pub flat_between : (y a b : F) → IsNumber y → same a b ≡ true → is_between y a b ≡ same y a
  flat_between y a b h k =
      let back = same_comm a b k in
      let na = same_number a b k in
      let nb = same_number b a back in
      ground (
        arith,
        same_not_less a b k,
        same_not_less b a back,
        at_most_lem laws b y nb h,
        at_most_lem laws y a h na,
        less_cotrans y a b na,
        less_cotrans y b a nb,
        same_not_less y a,
        same_not_less a y,
        same_comm y a,
        same_of_not_less y a h na,
      )

  -- What lies between is a number.
  pub at-IsNumber : (y a b : F) → is_between y a b ≡ true → IsNumber y
  at-IsNumber y a b h = ground (
    arith,
    less_number a y,
    less_number y b,
    less_number b y,
    less_number y a,
    same_number y a,
    same_number y b,
    same_number a y,
    same_number b y,
    same_comm a y,
    same_comm b y,
  )

  -- Between a lesser height and a greater, in either order.
  pub sorted_between :
      (y a b : F)
      → IsNumber y
      → IsNumber a
      → IsNumber b
      → at_most a b ≡ true
      → (is_between y a b ≡ (at_most a y && at_most y b))
        × (is_between y b a ≡ (at_most a y && at_most y b))
  sorted_between y a b h na nb le = ground (
    arith,
    laws.less_asymm a b,
    laws.same_not_less b a,
    laws.same_comm a b,
    laws.same_not_less a b,
    at_most_lem laws a y na h,
    at_most_lem laws y b h nb,
    at_most_lem laws b y nb h,
    at_most_lem laws y a h na,
    laws.less_cotrans y a b na,
    laws.less_cotrans a b y nb,
    laws.less_cotrans y b a nb,
    laws.less_cotrans b a y na,
  )

  -- A height is within the lesser of two heights and the greater.
  pub spans :
      (y a b : F)
      → IsNumber y
      → IsNumber a
      → IsNumber b
      → not (less y (if less b a then b else a) || less (if less b a then a else b) y)
        ≡ is_between y a b
  spans y a b h na nb = ground (
    arith,
    laws.less_asymm a b,
    at_most_lem laws a y na h,
    at_most_lem laws y b h nb,
    at_most_lem laws b y nb h,
    at_most_lem laws y a h na,
    laws.less_cotrans y a b na,
    laws.less_cotrans a b y nb,
    laws.less_cotrans y b a nb,
    laws.less_cotrans b a y na,
  )
