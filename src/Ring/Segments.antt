-- ===== src/Ring/Segments.antt =====
-- ring.go: whether a ring contains or meets a segment.
use mathlib.Core.Bool.{xor}
use geometry.Prelude.{ℕ, ◌+◌, Bool, true, false, not, ◌&&◌, ◌||◌, Option, none, some}
use geometry.Prelude.Tests.{ltb, leb, ◌==◌, if◌then◌else◌}
use geometry.Prelude.Run.{Run, ok, ◌>>=◌, and_then}
use geometry.Float.{Float, ◌⊕◌, ◌⊖◌, ◌⊗◌, const, less}
use geometry.Point.{Point, same_point}
use geometry.Segment.{Segment, rect, collinear_point}
use geometry.Segment.Raycast.{raycast}
use geometry.Segment.Intersect.{intersects_segment}
use geometry.Search.{Iter}
use geometry.Ring.{Ring, search_ring, nth_segment, is_convex, is_clockwise}
use geometry.Ring.Points.{ring_contains_point}

-- the variables of ringIntersectsSegment
pub record Crossings : Type 0 where
  pub count : ℕ
  pub a_on : Bool
  pub b_on : Bool

module _ {ℓ} {F : Type ℓ} ⦃fl : Float F⦄ where
  -- !seg.Raycast(p).On
  abbrev is_off : Segment F → Point F → Run Bool
  is_off g p = do r ← raycast g p; ok (not r.on)

  -- a search for a segment of the ring that meets this one and passes the test
  unfoldable pub is_crossed : Ring F → Segment F → (Segment F → Run Bool) → Run Bool
  is_crossed ring s test =
      search_ring ring (rect s)
        (λ found g i. do
          meets ← intersects_segment s g
          if meets
              then (do t ← test g; ok (if t then (true, false) else (found, true)))
              else ok (found, true))
        false

  -- one step of the sum for the winding order
  abbrev winding : F → Point F → Point F → F
  winding cwc a b = cwc ⊕ (b.x ⊖ a.x) ⊗ (b.y ⊕ a.y)

  -- the end of a segment is the end of one of the two
  abbrev touches : Segment F → Segment F → Point F → Bool
  touches g h p = same_point g.a p || same_point g.b p || same_point h.a p || same_point h.b p

  -- case (1): the ends lie on the ring segments i and j
  unfoldable pub passes_inside : Ring F → Segment F → ℕ → ℕ → Run Bool
  passes_inside ring s i j = do
    on_a ← nth_segment ring i
    on_b ← nth_segment ring j
    let first = if ltb j i then on_b else on_a
    let second = if ltb j i then on_a else on_b
    let cwc =
        winding
          (winding (winding (winding (const 0) first.a first.b) first.b second.a) second.a second.b)
          second.b first.a
    if touches on_a on_b s.a || touches on_a on_b s.b
        then ok true
        else if xor (less (const 0) cwc) (is_clockwise ring)
        then ok false
        else do
          crossed ← is_crossed ring s (λ g. and_then (is_off g s.a) (is_off g s.b))
          ok (not crossed)

  -- the cases where the edge of a concave ring is allowed, by the edges that the ends lie on
  unfoldable pub contains_by_edges : Ring F → Segment F → Option ℕ → Option ℕ → Run Bool
  contains_by_edges ring s (some i) (some j) = if i == j then ok true else passes_inside ring s i j
  contains_by_edges ring s (some i) none = do
    crossed ← is_crossed ring s (λ g. is_off g s.a)
    ok (not crossed)
  contains_by_edges ring s none (some j) = do
    crossed ← is_crossed ring s (λ g. is_off g s.b)
    ok (not crossed)
  contains_by_edges ring s none none = do
    crossed ← is_crossed ring s (λ g. and_then (is_off s g.a) (is_off s g.b))
    ok (not crossed)

  -- ringContainsSegment
  unfoldable pub ring_contains_segment : Ring F → Segment F → Bool → Run Bool
  ring_contains_segment ring s allow_on_edge = do
    at_a ← ring_contains_point ring s.a allow_on_edge
    if not at_a.hit then ok false else if same_point s.b s.a then ok true else do
      at_b ← ring_contains_point ring s.b allow_on_edge
      if not at_b.hit
          then ok false
          else if is_convex ring
          then ok true
          else if allow_on_edge
          then contains_by_edges ring s at_a.idx at_b.idx
          else do crossed ← is_crossed ring s (λ g. ok true); ok (not crossed)

  -- the callback of ringIntersectsSegment
  unfoldable pub crossing_counter : Segment F → Bool → Iter F Crossings
  crossing_counter s allow_on_edge c g i = do
    meets ← intersects_segment s g
    let one_more : Crossings × Bool = (record c { count = c.count + 1 }, ltb (c.count + 1) 2)
    ok (
        if not meets
        then (c, ltb c.count 2)
        else if allow_on_edge
        then one_more
        else if collinear_point s g.a && collinear_point s g.b
        then (c, ltb c.count 2)
        else if not c.a_on && (same_point s.a g.a || same_point s.a g.b)
        then (record c { a_on = true }, true)
        else if not c.b_on && (same_point s.b g.a || same_point s.b g.b)
        then (record c { b_on = true }, true)
        else one_more)

  -- ringIntersectsSegment
  unfoldable pub ring_intersects_segment : Ring F → Segment F → Bool → Run Bool
  ring_intersects_segment ring s allow_on_edge = do
    at_a ← ring_contains_point ring s.a allow_on_edge
    if at_a.hit then ok true else do
      at_b ← ring_contains_point ring s.b allow_on_edge
      if at_b.hit then ok true else do
        c ←
            search_ring ring (rect s) (crossing_counter s allow_on_edge)
              (record { count = 0; a_on = false; b_on = false })
        ok (leb 2 c.count)
