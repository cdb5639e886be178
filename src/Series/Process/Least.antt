-- ===== src/Series/Process/Least.antt =====
-- The rectangle that processPoints finds, from above.
use geometry.Prelude.{
  ℕ, zero, suc, ◌+◌, ◌-◌, ◌<◌, ◌≤◌, ◌≡◌, refl, Bool, true, false, ◌&&◌, ◌||◌, inl, inr, some, List,
  arith,
}
use geometry.Prelude.Tests.{ltb, ◌==◌, if◌then◌else◌, Bool-cases}
use geometry.Prelude.Lists.{length, get_elem?, get_elem?-some}
use geometry.Prelude.Run.{Returns}
use geometry.Float.{Float, less}
use geometry.Float.Laws.{IsOrdered}
use geometry.Point.{Point}
use geometry.Segment.{Rect, box}
use geometry.Rect.{contains_point, contains_rect}
use geometry.Series.Process.{Pass, start, stretch, inflate, visit, pass_from, process_points}

module _ {ℓ κ} {F : Type ℓ} ⦃fl : Float F⦄ (points : List (Point F)) (P : Rect F → Type κ)
    (first : (j : ℕ) (a : Point F) → get_elem? points j ≡ some a → P (box a a))
    (next : (j : ℕ) (a : Point F) (r : Rect F)
      → get_elem? points j ≡ some a
      → P r
      → P (inflate r a)) where
  visit_keeps :
      (i : ℕ) (s : Pass F) (a b c : Point F)
      → get_elem? points i ≡ some a
      → (0 < i → P s.rect)
      → P (visit i s a b c).rect
  unfolding visit
  visit_keeps i s a b c e before = elim (Bool-cases (i == 0)) [
    | inl here ↦ rw here (first i a e)
    | inr later ↦ rw later (next i a s.rect e (before (ground arith)))
  ]

  -- What holds of the rectangle of each point, and is kept where one more is added, holds in the end.
  pass_from_keeps :
      (rounds i : ℕ) (s : Pass F)
      → i + rounds ≡ length points
      → 2 ≤ length points
      → (0 < i → P s.rect)
      → Returns (λ t. P t.rect) (pass_from points rounds i s)
  unfolding pass_from
  pass_from_keeps zero i s e two h = (s, refl, h (omega arith))
  pass_from_keeps (suc rounds) i s e two h =
      let n = length points in
      let (a, ea) = get_elem?-some points i (omega arith) in
      let (b, eb) = get_elem?-some points (if i == n - 1 then 0 else i + 1) (ground arith) in
      let (c, ec) =
        get_elem?-some points (if i == n - 1 then 1 else if i == n - 2 then 0 else i + 2)
          (ground arith) in
      rw (ea, eb, ec)
        (pass_from_keeps rounds (i + 1) (visit i s a b c) (omega arith) two
          (λ _. visit_keeps i s a b c ea h))

  pub process_points_keeps :
      (closed : Bool)
      → (closed && ltb (length points) 3 || ltb (length points) 2) ≡ false
      → Returns (λ t. P t.rect) (process_points points closed)
  unfolding process_points
  process_points_keeps closed long =
      let (s, run, h) =
        pass_from_keeps (length points) 0 start (omega arith) (ground arith)
          (λ p. absurd (omega arith)) in
      rw (long, run) (_, refl, h)

module _ {ℓ} {F : Type ℓ} ⦃fl : Float F⦄ (laws : IsOrdered F) (r : Rect F) where
  open laws use {same_not_less, same_comm, less_asymm}

  box-contains_rect : (a : Point F) → contains_point r a ≡ true → contains_rect r (box a a) ≡ true
  unfolding contains_point contains_rect
  box-contains_rect a h = ground (
    arith,
    less_asymm r.min.x a.x,
    less_asymm a.x r.max.x,
    less_asymm r.min.y a.y,
    less_asymm a.y r.max.y,
    same_not_less a.x r.min.x,
    same_comm r.min.x a.x,
    same_not_less r.max.x a.x,
    same_comm a.x r.max.x,
    same_not_less a.y r.min.y,
    same_comm r.min.y a.y,
    same_not_less r.max.y a.y,
    same_comm a.y r.max.y,
  )

  stretch-contains :
      (lo hi v x0 x1 : F)
      → less lo x0 ≡ false
      → less x1 hi ≡ false
      → less v x0 ≡ false
      → less x1 v ≡ false
      → (less (stretch lo hi v).0 x0 ≡ false) × (less x1 (stretch lo hi v).1 ≡ false)
  unfolding stretch
  stretch-contains lo hi v x0 x1 h k l m = ground arith

  inflate-contains_rect :
      (s : Rect F) (a : Point F)
      → contains_point r a ≡ true
      → contains_rect r s ≡ true
      → contains_rect r (inflate s a) ≡ true
  unfolding contains_rect inflate
  inflate-contains_rect s a h k =
      let at = box-contains_rect a h in
      let (x0, x1) =
        stretch-contains s.min.x s.max.x a.x r.min.x r.max.x (ground arith) (ground arith)
          (ground arith) (ground arith) in
      let (y0, y1) =
        stretch-contains s.min.y s.max.y a.y r.min.y r.max.y (ground arith) (ground arith)
          (ground arith) (ground arith) in
      ground arith

  -- Every rectangle that contains the points contains the rectangle that processPoints finds.
  pub process_points_least :
      (points : List (Point F)) (closed : Bool)
      → ((j : ℕ) (p : Point F) → get_elem? points j ≡ some p → contains_point r p ≡ true)
      → (closed && ltb (length points) 3 || ltb (length points) 2) ≡ false
      → Returns (λ t. contains_rect r t.rect ≡ true) (process_points points closed)
  process_points_least points closed contained long =
      process_points_keeps points (λ s. contains_rect r s ≡ true)
        (λ j a e. box-contains_rect a (contained j a e))
        (λ j a s e. inflate-contains_rect s a (contained j a e)) closed long
