-- ===== src/Line/Inside.antt =====
-- Whether a rectangle contains a line, against the test of its points.
pub mod Tests
use mathlib.Core.Path.{subst}
use geometry.Prelude.{
  ℕ, zero, suc, ◌<◌, ◌≡◌, refl, sym, ap, ◌∙◌, Bool, true, false, not, ◌&&◌, ◌||◌, inl, inr, Option,
  some, List, [], ◌∷◌, arith,
}
use geometry.Prelude.Tests.{ltb, Bool-cases}
use geometry.Prelude.Lists.{length, get_elem?, All, All-get_elem?}
use geometry.Prelude.Run.{ok, Returns}
use geometry.Float.{Float, less, same, at_most, IsNumber}
use geometry.Float.Laws.{IsOrdered}
use geometry.Point.{Point, IsNumeric}
use geometry.Segment.{Rect, box}
use geometry.Rect.{contains_point, contains_rect}
use geometry.Rect.Order.{IsNumericRect}
use geometry.Series.{BaseSeries, IndexOptions, empty}
use geometry.Series.Process.{stretch, inflate, process_points}
use geometry.Series.Process.Bounds.{Encloses, Within, process_points-Encloses}
use geometry.Series.Process.Least.{process_points_keeps, process_points_least}
use geometry.Index.{make_series}
use geometry.Index.Answers.{make_series-IsReady}
use geometry.Index.Made.{made-parts}
use geometry.Line.{new_line, rect_contains_line}

module _ {ℓ} {F : Type ℓ} ⦃fl : Float F⦄ where
  -- The rectangle contains each of the points.
  abbrev pub contains_all : Rect F → List (Point F) → Bool
  contains_all r [] = true
  contains_all r (p ∷ points) = contains_point r p && contains_all r points

  all_contained :
      (r : Rect F) (points : List (Point F))
      → contains_all r points ≡ true
      → (j : ℕ) (p : Point F) → get_elem? points j ≡ some p
      → contains_point r p ≡ true
  all_contained r [] h j p e = cc
  all_contained r (q ∷ points) h zero p e =
      let same_one : q ≡ p = cc in rw (← same_one) (ground arith)
  all_contained r (q ∷ points) h (suc j) p e = all_contained r points (ground arith) j p e

  contained_all :
      (r : Rect F) (points : List (Point F))
      → ((j : ℕ) (p : Point F) → get_elem? points j ≡ some p → contains_point r p ≡ true)
      → contains_all r points ≡ true
  contained_all r [] h = refl
  contained_all r (q ∷ points) h = rw (h 0 q refl) (contained_all r points (λ j p e. h (suc j) p e))

module _ {ℓ} {F : Type ℓ} ⦃fl : Float F⦄ (laws : IsOrdered F) where
  open laws use {less_cotrans, same_of_not_less, same_comm}

  -- What is not below the lower bound of an inner span is at least the lower bound of the outer.
  at_most_outer :
      (outer inner v : F)
      → IsNumber outer
      → IsNumber inner
      → IsNumber v
      → less inner outer ≡ false
      → less v inner ≡ false
      → at_most outer v ≡ true
  at_most_outer outer inner v n m k h l =
      ground (arith, less_cotrans v inner outer m, same_of_not_less outer v n k)

  at_least_outer :
      (outer inner v : F)
      → IsNumber outer
      → IsNumber inner
      → IsNumber v
      → less outer inner ≡ false
      → less inner v ≡ false
      → at_most v outer ≡ true
  at_least_outer outer inner v n m k h l =
      ground (arith, less_cotrans outer inner v m, same_of_not_less v outer k n)

  pub Encloses-contains_point :
      (r s : Rect F) (p : Point F)
      → IsNumericRect r
      → IsNumericRect s
      → IsNumeric p
      → contains_rect r s ≡ true
      → Encloses s p
      → contains_point r p ≡ true
  unfolding contains_rect contains_point
  Encloses-contains_point r s p ((a, b), (c, d)) ((a', b'), (c', d')) (m, k) h ((l, l'), (u, u')) =
      let left = at_most_outer r.min.x s.min.x p.x a a' m (ground arith) l in
      let right = at_least_outer r.max.x s.max.x p.x c c' m (ground arith) l' in
      let low = at_most_outer r.min.y s.min.y p.y b b' k (ground arith) u in
      let high = at_least_outer r.max.y s.max.y p.y d d' k (ground arith) u' in ground arith

  inflate-IsNumericRect :
      (s : Rect F) (a : Point F) → IsNumeric a → IsNumericRect s → IsNumericRect (inflate s a)
  unfolding inflate stretch
  inflate-IsNumericRect s a h k = ground arith

  module _ (points : List (Point F)) (closed : Bool) (numeric : All IsNumeric points)
      (opts : Option IndexOptions) (line : BaseSeries F)
      (made : make_series points closed opts ≡ ok line)
      (long : (closed && ltb (length points) 3 || ltb (length points) 2) ≡ false) where
    pub made-IsNumericRect : IsNumericRect line.rect
    made-IsNumericRect =
        let (p, processed, _) = process_points-Encloses laws points closed in
        let (same_rect, _) = made-parts laws points closed numeric opts line made in
        let at = λ (j : ℕ) (a : Point F) (e : get_elem? points j ≡ some a).
          All-get_elem? IsNumeric points j numeric e in
        let (t, run, h) =
          process_points_keeps points IsNumericRect (λ j a e. (at j a e, at j a e))
            (λ j a s e k. inflate-IsNumericRect s a (at j a e) k) closed long in
        let e : t ≡ p = cc in rw (same_rect, ← e) h

    -- The rectangle of a series is in another one just where its points are.
    made-contains_all :
        (r : Rect F) → IsNumericRect r → contains_rect r line.rect ≡ contains_all r points
    made-contains_all r known =
        let (p, processed, encloses) = process_points-Encloses laws points closed in
        let (same_rect, _) = made-parts laws points closed numeric opts line made in
        elim (Bool-cases (contains_all r points)) [
          | inl all ↦
              let (t, run, h) =
                process_points_least laws r points closed (all_contained r points all) long in
              let e : t ≡ p = cc in rw (same_rect, ← e) h ∙ sym all
          | inr some_out ↦ elim (Bool-cases (contains_rect r line.rect)) [
            | inl holds ↦
                let all = contained_all r points (λ j q e.
                  Encloses-contains_point r line.rect q known made-IsNumericRect
                    (All-get_elem? IsNumeric points j numeric e) holds
                    (rw same_rect (encloses long j q e))) in
                holds ∙ sym all
            | inr fails ↦ fails ∙ sym some_out
          ]
        ]

  -- On a line of points without NaN, Rect.ContainsLine of a rectangle without NaN answers whether
  -- there are two points or more and the rectangle contains each of them.
  pub rect_contains_line-All :
      (points : List (Point F)) (opts : Option IndexOptions) (line : BaseSeries F) (r : Rect F)
      → All IsNumeric points
      → new_line points opts ≡ ok line
      → IsNumericRect r
      → rect_contains_line r (some line) ≡ ok (not (ltb (length points) 2) && contains_all r points)
  unfolding rect_contains_line new_line empty
  rect_contains_line-All points opts line r numeric made known =
      let (s, run, (same_points, same_closed, _)) =
        make_series-IsReady laws points false opts numeric in
      let e : s ≡ line = cc in
      let e_points : line.points ≡ points =
        subst (λ (b : BaseSeries F). b.points ≡ points) e same_points in
      let e_closed : line.closed ≡ false =
        subst (λ (b : BaseSeries F). b.closed ≡ false) e same_closed in
      elim (Bool-cases (ltb (length points) 2)) [
        | inl short ↦
            let none : empty line ≡ true = rw (e_closed, e_points) short in rw (none, short) refl
        | inr long ↦
            let some_segment : empty line ≡ false = rw (e_closed, e_points) long in
            rw
              (
                some_segment,
                long,
                made-contains_all points false numeric opts line made long r known,
              )
              refl
      ]
