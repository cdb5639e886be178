-- ===== src/Poly/Same.antt =====
-- The point test of polygons whose rings are of the same points, with different indices.
pub mod Tests
use geometry.Prelude.{
  ℕ, ◌+◌, ◌≡◌, refl, sym, ap, ◌∙◌, Bool, true, false, not, Option, none, some, List, [], ◌∷◌, inl,
  inr, arith,
}
use geometry.Prelude.Tests.{if◌then◌else◌, Bool-cases}
use geometry.Prelude.Agree.{Agree, ok-Agree, bind-AgreeBy, if-Agree}
use geometry.Ring.Points.{RingResult}
use geometry.Prelude.Run.{ok, Returns}
use geometry.Float.{Float}
use geometry.Float.Laws.{IsOrdered}
use geometry.Point.{Point}
use geometry.Segment.Raycast.Ends.{IsRising}
use geometry.Series.{BaseSeries}
use geometry.Series.Drawn.{IsDrawn}
use geometry.Ring.{Ring, of_series, of_rect}
use geometry.Ring.Points.{ring_contains_point}
use geometry.Ring.Same.{IsRing, ring_contains_point-same}
use geometry.Poly.{Poly, find_hole, contains_point_ex}

module _ {ℓ} {F : Type ℓ} ⦃fl : Float F⦄ where
  -- The ring is a series made of these points.
  abbrev pub IsRingOf : List (Point F) → Ring F → Type ℓ
  IsRingOf points (of_series s) = IsDrawn points × IsRing points s
  IsRingOf points (of_rect r) = ⊥ × Unit {ℓ}

  -- These rings, in the order of these lists of points.
  abbrev pub AreRings : List (List (Point F)) → List (Ring F) → Type ℓ
  AreRings [] [] = Unit
  AreRings [] (r ∷ rs) = ⊥ × Unit {ℓ}
  AreRings (points ∷ others) [] = ⊥ × Unit {ℓ}
  AreRings (points ∷ others) (r ∷ rs) = IsRingOf points r × AreRings others rs

  -- The polygon has this exterior and these holes.
  pub record IsPoly (points : List (Point F)) (holes : List (List (Point F))) (poly : Poly F)
      : Type ℓ where
    pub ring : Ring F
    pub outer : poly.exterior ≡ some ring
    pub is_ring : IsRingOf points ring
    pub are_rings : AreRings holes poly.holes

module _ {ℓ} {F : Type ℓ} ⦃fl : Float F⦄ (laws : IsOrdered F) (rising : IsRising F)
    (p : Point F) where
  -- Two rings of the same points report the same hit.
  rings-same :
      (points : List (Point F)) (ring other : Ring F) (allow_on_edge : Bool)
      → IsRingOf points ring
      → IsRingOf points other
      → Returns
          (λ r. Returns (λ r'. r'.hit ≡ r.hit) (ring_contains_point other p allow_on_edge))
          (ring_contains_point ring p allow_on_edge)
  rings-same points (of_series s) (of_series t) allow_on_edge (drawn, is_ring) (drawn', is_other) =
      ring_contains_point-same laws rising points drawn s t is_ring is_other p allow_on_edge
  rings-same points (of_series s) (of_rect t) allow_on_edge is_ring is_other = absurd is_other.0
  rings-same points (of_rect s) other allow_on_edge is_ring is_other = absurd is_ring.0

  find_hole-Agree :
      (holes : List (List (Point F))) (rings others : List (Ring F)) (i : ℕ)
      → AreRings holes rings
      → AreRings holes others
      → Agree (find_hole rings i p) (find_hole others i p)
  unfolding find_hole
  find_hole-Agree [] [] [] i are_rings are_others = ok-Agree (true, none)
  find_hole-Agree [] [] (t ∷ others) i are_rings are_others = absurd are_others.0
  find_hole-Agree [] (r ∷ rings) others i are_rings are_others = absurd are_rings.0
  find_hole-Agree (points ∷ holes) [] others i are_rings are_others = absurd are_rings.0
  find_hole-Agree (points ∷ holes) (r ∷ rings) [] i are_rings are_others = absurd are_others.0
  find_hole-Agree (points ∷ holes) (r ∷ rings) (t ∷ others) i (is_ring, are_rings)
        (is_other, are_others) =
      bind-AgreeBy (λ (a a' : RingResult). a'.hit ≡ a.hit) _ _ _ _
        (rings-same points r t false is_ring is_other)
        λ a a' hit.
          if-Agree a.hit a'.hit _ _ _ _ hit (ok-Agree (false, some i))
            (find_hole-Agree holes rings others (i + 1) are_rings are_others)

  -- For two polygons whose rings makeSeries returns for the same lists of points, each of fewer than
  -- 2^63 points, without NaN and with Y below +Inf, each ring with an index of fewer than 2^32 bytes or none:
  -- ContainsPointEx returns, and answers the same, the index of the hole included. Nextafter must rise
  -- below +Inf.
  pub contains_point_ex-same :
      (points : List (Point F)) (holes : List (List (Point F))) (poly other : Poly F)
      → IsPoly points holes poly
      → IsPoly points holes other
      → Agree (contains_point_ex (some poly) p) (contains_point_ex (some other) p)
  unfolding contains_point_ex
  contains_point_ex-same points holes poly other v w =
      rw (v.outer, w.outer)
        (bind-AgreeBy (λ (a a' : RingResult). a'.hit ≡ a.hit) _ _ _ _
          (rings-same points v.ring w.ring true v.is_ring w.is_ring)
          λ a a' hit.
            if-Agree (not a.hit) (not a'.hit) _ _ _ _ (ap not hit) (ok-Agree (false, none))
              (find_hole-Agree holes poly.holes other.holes 0 v.are_rings w.are_rings))
