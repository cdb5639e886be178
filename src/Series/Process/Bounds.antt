-- ===== src/Series/Process/Bounds.antt =====
-- The rectangle that processPoints finds.
use mathlib.Core.Path.{subst}
use native.Mathlib.Decide.{ℕ_discrete}
use geometry.Prelude.{
  some, inl, inr, sym, ◌||◌, ◌&&◌, ℕ, zero, suc, ◌+◌, ◌-◌, ◌≤◌, ◌<◌, ◌≡◌, refl, Bool, false, List,
  arith,
}
use geometry.Prelude.Tests.{Bool-cases, ltb, ◌==◌, if◌then◌else◌}
use geometry.Prelude.Lists.{length, get_elem?, get_elem?-some, get_elem?-lt}
use geometry.Prelude.Run.{Returns}
use geometry.Float.{Float, less}
use geometry.Float.Laws.{IsOrdered, less_irrefl, less_trans}
use geometry.Point.{Point}
use geometry.Segment.{Rect, box}
use geometry.Series.Process.{stretch, inflate, visit, Pass, pass_from, process_points, start}

module _ {ℓ} {F : Type ℓ} ⦃fl : Float F⦄ where
  -- v is not outside the bounds. (That says nothing of a bound that is NaN.)
  abbrev pub Within : F → F → F → Type 0
  Within lo hi v = (less v lo ≡ false) × (less hi v ≡ false)

  -- The rectangle encloses the point.
  abbrev pub Encloses : Rect F → Point F → Type 0
  Encloses r p = Within r.min.x r.max.x p.x × Within r.min.y r.max.y p.y

  -- The rectangle does not stand the wrong way round.
  abbrev pub IsUpright : Rect F → Type 0
  IsUpright r = (less r.max.x r.min.x ≡ false) × (less r.max.y r.min.y ≡ false)

  module _ (laws : IsOrdered F) where
    open laws use {less_asymm}

    stretch-Within :
        (lo hi v w : F)
        → less hi lo ≡ false
        → Within lo hi w
        → Within (stretch lo hi v).0 (stretch lo hi v).1 w
    unfolding stretch
    stretch-Within lo hi v w h k = ground (arith, less_trans laws w v lo, less_trans laws hi v w)

    stretch-covers :
        (lo hi v : F)
        → less hi lo ≡ false
        → Within (stretch lo hi v).0 (stretch lo hi v).1 v
          × (less (stretch lo hi v).1 (stretch lo hi v).0 ≡ false)
    unfolding stretch
    stretch-covers lo hi v h = ground (
      arith,
      less_irrefl laws v,
      less_trans laws hi v lo,
      less_asymm v lo,
      less_asymm hi v,
      less_asymm lo v,
    )

    inflate-keeps :
        (r : Rect F) (p q : Point F) → IsUpright r → Encloses r q → Encloses (inflate r p) q
    unfolding inflate
    inflate-keeps r p q (hx, hy) (kx, ky) =
        (stretch-Within r.min.x r.max.x p.x q.x hx kx, stretch-Within r.min.y r.max.y p.y q.y hy ky)

    inflate-covers :
        (r : Rect F) (p : Point F)
        → IsUpright r
        → Encloses (inflate r p) p × IsUpright (inflate r p)
    unfolding inflate
    inflate-covers r p (hx, hy) =
        let (wx, ux) = stretch-covers r.min.x r.max.x p.x hx in
        let (wy, uy) = stretch-covers r.min.y r.max.y p.y hy in ((wx, wy), (ux, uy))

    -- the first i points are enclosed, and from the first on the rectangle is upright
    abbrev Passed : List (Point F) → ℕ → Rect F → Type ℓ
    Passed points i r =
        ((j : ℕ) (p : Point F) → j < i → get_elem? points j ≡ some p → Encloses r p)
        × (0 < i → IsUpright r)

    -- the point just visited, and the older ones
    Passed-next :
        (points : List (Point F)) (i : ℕ) (a : Point F) (r : Rect F)
        → get_elem? points i ≡ some a
        → Encloses r a × IsUpright r
        → ((j : ℕ) (p : Point F) → j < i → get_elem? points j ≡ some p → Encloses r p)
        → Passed points (i + 1) r
    Passed-next points i a r e (here, upright) old = (
      λ j p h k. elim (ℕ_discrete j i) [
        | yes q ↦ let new : p ≡ a = cc in subst (Encloses r) (sym new) here
        | no q ↦ old j p (omega arith) k
      ],
      λ _. upright,
    )

    visit-Passed :
        (points : List (Point F)) (i : ℕ) (s : Pass F) (a b c : Point F)
        → get_elem? points i ≡ some a
        → Passed points i s.rect
        → Passed points (i + 1) (visit i s a b c).rect
    unfolding visit
    visit-Passed points i s a b c e (old, upright) = elim (Bool-cases (i == 0)) [
      | inl first ↦
          let ix = less_irrefl laws a.x in
          let iy = less_irrefl laws a.y in
          rw first (
            Passed-next points i a (box a a) e (((ix, ix), (iy, iy)), (ix, iy))
              λ j p h k. absurd (ground arith))
      | inr later ↦
          let up = upright (ground arith) in
          rw later (
            Passed-next points i a (inflate s.rect a) e (inflate-covers s.rect a up)
              λ j p h k. inflate-keeps s.rect a p up (old j p h k))
    ]

    -- From any round on, the loop comes to its end and has then visited all the points.
    pass_from-Passed :
        (points : List (Point F)) (rounds i : ℕ) (s : Pass F)
        → i + rounds ≡ length points
        → 2 ≤ length points
        → Passed points i s.rect
        → Returns (λ t. Passed points (length points) t.rect) (pass_from points rounds i s)
    unfolding pass_from
    pass_from-Passed points zero i s e two h = (
      s,
      refl,
      let e' : i ≡ length points = omega arith in subst (λ k. Passed points k s.rect) e' h,
    )
    pass_from-Passed points (suc rounds) i s e two h =
        let n = length points in
        let (a, ea) = get_elem?-some points i (omega arith) in
        let (b, eb) = get_elem?-some points (if i == n - 1 then 0 else i + 1) (ground arith) in
        let (c, ec) =
          get_elem?-some points (if i == n - 1 then 1 else if i == n - 2 then 0 else i + 2)
            (ground arith) in
        rw (ea, eb, ec)
          (pass_from-Passed points rounds (i + 1) (visit i s a b c) (omega arith) two
            (visit-Passed points i s a b c ea h))

    -- processPoints never panics, and its rectangle encloses every point of a series that is not
    -- empty.
    pub process_points-Encloses :
        (points : List (Point F)) (closed : Bool)
        → Returns
            (λ r.
              (closed && ltb (length points) 3 || ltb (length points) 2) ≡ false
              → (j : ℕ) (p : Point F) → get_elem? points j ≡ some p
              → Encloses r.rect p)
            (process_points points closed)
    unfolding process_points
    process_points-Encloses points closed =
        let n = length points in
        elim (Bool-cases (closed && ltb n 3 || ltb n 2)) [
          | inl short ↦ rw short (_, refl, λ long. cc)
          | inr long ↦
              let (s, run, (enclosed, _)) =
                pass_from-Passed points n 0 start (omega arith) (ground arith)
                  (λ j p h. absurd (omega arith), λ h. absurd (omega arith)) in
              rw (long, run) (_, refl, λ _ j p e. enclosed j p (get_elem?-lt points j e) e)
        ]

    -- For a series that is not too short, processPoints returns, and the rectangle that it finds has
    -- no coordinate beyond which a point of the series lies.
    pub process_points_bounds :
        (points : List (Point F)) (closed : Bool) (j : ℕ) (p : Point F)
        → (closed && ltb (length points) 3 || ltb (length points) 2) ≡ false
        → get_elem? points j ≡ some p
        → Returns (λ r. Encloses r.rect p) (process_points points closed)
    process_points_bounds points closed j p long at =
        let (t, run, encloses) = process_points-Encloses points closed in
        (t, run, encloses long j p at)
