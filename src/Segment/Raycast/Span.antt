-- ===== src/Segment/Raycast/Span.antt =====
-- Whether a point is as high as a segment somewhere is.
use geometry.Prelude.{◌≡◌, Bool, true, false, not, ◌||◌, arith}
use geometry.Prelude.Tests.{if◌then◌else◌}
use geometry.Float.{Float, less, same, IsNumber}
use geometry.Float.Laws.{IsOrdered, is_between, at_most_lem}
use geometry.Point.{Point}
use geometry.Segment.Raycast.{misses_span}

module _ {ℓ} {F : Type ℓ} ⦃fl : Float F⦄ (laws : IsOrdered F) where
  open laws use {less_asymm, less_cotrans, same_comm, same_number, same_not_less, same_of_not_less}

  -- the test whether a height is outside that of the ends
  abbrev pub outside : F → Point F → Point F → Bool
  outside z a b = if less a.y b.y then less z a.y || less b.y z else less z b.y || less a.y z

  pub off_level :
      (z : F) (a b : Point F)
      → same a.y b.y ≡ true
      → same z a.y ≡ false
      → IsNumber z
      → outside z a b ≡ true
  off_level z a b flat off number = ground (
    arith,
    same_not_less a.y b.y flat,
    same_not_less b.y a.y (same_comm a.y b.y flat),
    same_of_not_less z a.y number (same_number a.y b.y flat),
    less_cotrans z b.y a.y (same_number b.y a.y (same_comm a.y b.y flat)),
  )

  pub outside-not :
      (z : F) (a b : Point F)
      → IsNumber z
      → IsNumber a.y
      → IsNumber b.y
      → outside z a b ≡ not (is_between z a.y b.y)
  outside-not z a b number na nb = ground (
    arith,
    at_most_lem laws a.y z na number,
    at_most_lem laws z b.y number nb,
    at_most_lem laws b.y z nb number,
    at_most_lem laws z a.y number na,
  )

  pub between_met : (p a b : Point F) → is_between p.y a.y b.y ≡ true → misses_span p a b ≡ false
  unfolding misses_span
  between_met p a b h = ground (
    arith,
    less_asymm a.y b.y,
    less_asymm a.y p.y,
    less_asymm p.y b.y,
    less_asymm b.y p.y,
    less_asymm p.y a.y,
    same_not_less p.y a.y,
    same_not_less b.y p.y,
    same_not_less p.y b.y,
    same_not_less a.y p.y,
    same_comm a.y p.y,
    same_comm p.y b.y,
    same_comm b.y p.y,
    same_comm p.y a.y,
  )
