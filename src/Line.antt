-- ===== src/Line.antt =====
-- line.go: lines, which are open series of points. A *Line is nil, or its series.
pub mod Loop
pub mod Same
pub mod Inside
mod Tests
use geometry.Prelude.{
  ℕ, zero, suc, ◌-◌, ◌+◌, Bool, true, false, not, ◌&&◌, ◌||◌, Option, none, some, List, [], ◌∷◌,
}
use geometry.Prelude.Tests.{ltb, ◌==◌, if◌then◌else◌}
use geometry.Prelude.Run.{Run, ok, out_of_fuel, ◌>>=◌}
use geometry.Float.{Float, same}
use geometry.Point.{Point, same_point}
use geometry.Segment.{Segment, Rect, box, rect}
use geometry.Segment.Raycast.{raycast}
use geometry.Segment.Intersect.{contains_segment, intersects_segment}
use geometry.Rect.{contains_rect, intersects_rect, point_rect, same_rect}
use geometry.Search.{Iter}
use geometry.Series.{BaseSeries, IndexOptions, empty, num_points, num_segments, segment_at}
use geometry.Index
use geometry.Index.{make_series, search_series}
use geometry.Ring.{of_rect, any_from}
use geometry.Ring.Rings.{ring_intersects_line}

-- if line == nil { return false }
abbrev pub unless_nil {ℓ} : {A : Type ℓ} → Option A → (A → Run Bool) → Run Bool
unless_nil none f = ok false
unless_nil (some a) f = f a

module _ {ℓ} {F : Type ℓ} ⦃fl : Float F⦄ where
  unfoldable pub new_line : List (Point F) → Option IndexOptions → Run (BaseSeries F)
  new_line points opts = make_series points false opts

  unfoldable pub line_move : Option (BaseSeries F) → F → F → Run (Option (BaseSeries F))
  line_move none dx dy = ok none
  line_move (some line) dx dy = do moved ← Index.move line dx dy; ok (some moved)

  unfoldable pub line_contains_point : Option (BaseSeries F) → Point F → Run Bool
  line_contains_point l p = unless_nil l λ line. do
    (contains, more) ←
        search_series line (box p p)
          (λ found g i. do r ← raycast g p; ok (if r.on then (true, false) else (found, true)))
          false
    ok contains

  unfoldable pub line_intersects_point : Option (BaseSeries F) → Point F → Run Bool
  line_intersects_point l p = line_contains_point l p

  -- the first index from i on, of n rounds, whose segment contains the other one
  unfoldable pub find_segment : BaseSeries F → Segment F → ℕ → ℕ → Run (Option ℕ)
  find_segment line g zero j = ok none
  find_segment line g (suc n) j = do
    mine ← segment_at line j
    holds ← contains_segment mine g
    if holds then ok (some j) else find_segment line g n (j + 1)

  -- The loop of ContainsLine, with this many segments of the other line left from the i-th on. It
  -- stays at i where it moves to a neighbour of segment at, so it has fuel.
  unfoldable pub follow : ℕ → BaseSeries F → BaseSeries F → ℕ → ℕ → ℕ → ℕ → Run Bool
  follow zero line other count at i left = out_of_fuel
  follow (suc fuel) line other count at i zero = ok true
  follow (suc fuel) line other count at i (suc left) = do
    mine ← segment_at line at
    theirs ← segment_at other i
    holds ← contains_segment mine theirs
    let next = follow fuel line other count at (i + 1) left
    let back = follow fuel line other count (at - 1) i (suc left)
    let forth = follow fuel line other count (at + 1) i (suc left)
    if holds
        then next
        else if same_point theirs.a mine.a
        then (if at == 0 then ok false else back)
        else if same_point theirs.a mine.b
        then (if at == count - 1 then ok false else forth)
        else next

  unfoldable pub line_contains_line : ℕ → Option (BaseSeries F) → Option (BaseSeries F) → Run Bool
  line_contains_line fuel l o = unless_nil l λ line. unless_nil o λ other.
      if empty line || empty other then ok false else do
        count ← num_segments line
        first ← segment_at other 0
        found ← find_segment line first count 0
        n ← num_segments other
        elim found [ none ↦ ok false | some at ↦ follow fuel line other count at 1 (n - 1) ]

  -- some segment of the other line meets this one
  abbrev meets_line : BaseSeries F → Segment F → Run Bool
  meets_line other g = do
    (found, more) ←
        search_series other (rect g)
          (λ found h i. do
            meets ← intersects_segment g h
            ok (if meets then (true, false) else (found, true)))
          false
    ok found

  abbrev meets_from : BaseSeries F → BaseSeries F → Run Bool
  meets_from line other = do
    n ← num_segments line
    any_from n 0 (λ i. do g ← segment_at line i; meets_line other g)

  unfoldable pub line_intersects_line : Option (BaseSeries F) → Option (BaseSeries F) → Run Bool
  line_intersects_line l o = unless_nil l λ line. unless_nil o λ other.
      if empty line || empty other
      then ok false
      else if not (intersects_rect line.rect other.rect)
      then ok false
      else if ltb (num_points other) (num_points line)
      then meets_from other line
      else meets_from line other

  unfoldable pub line_intersects_rect : Option (BaseSeries F) → Rect F → Run Bool
  line_intersects_rect l r = unless_nil l λ line. ring_intersects_line (of_rect r) line true

  -- Point.ContainsLine and Point.IntersectsLine, Rect.ContainsLine and Rect.IntersectsLine
  unfoldable pub point_contains_line : Point F → Option (BaseSeries F) → Run Bool
  point_contains_line p l =
      unless_nil l λ line. ok (not (empty line) && same_rect line.rect (point_rect p))

  unfoldable pub point_intersects_line : Point F → Option (BaseSeries F) → Run Bool
  point_intersects_line p l = unless_nil l λ line. line_intersects_point (some line) p

  unfoldable pub rect_contains_line : Rect F → Option (BaseSeries F) → Run Bool
  rect_contains_line r l = unless_nil l λ line. ok (not (empty line) && contains_rect r line.rect)

  unfoldable pub rect_intersects_line : Rect F → Option (BaseSeries F) → Run Bool
  rect_intersects_line r l = unless_nil l λ line. ring_intersects_line (of_rect r) line true
