-- ===== src/Series/Process/Corners.antt =====
-- The corners of a closed path, whether processPoints finds them or not, and what it finds.
use geometry.Prelude.{
  ◌≡◌, refl, sym, ap, ◌∙◌, Bool, true, false, not, ◌&&◌, ◌||◌, List, [], ◌∷◌, ◌++◌, arith,
}
use geometry.Prelude.Tests.{ltb, if◌then◌else◌}
use geometry.Prelude.Lists.{length}
use geometry.Prelude.Run.{Returns}
use geometry.Float.{Float, const, less}
use geometry.Float.Laws.{IsOrdered}
use geometry.Point.{Point, same_point}
use geometry.Series.Process.{process_points}
use geometry.Series.Process.Shape.{
  cross, turns, turns_right, turns_left, area_below, process_points_path,
}

or_absorb : (y z : Bool) → (z ≡ true → y ≡ true) → (y || z) ≡ y
or_absorb true z h = refl
or_absorb false true h = sym (h refl)
or_absorb false false h = refl

module _ {ℓ} {F : Type ℓ} ⦃fl : Float F⦄ where
  -- Some point is == the next.
  abbrev pub repeats : List (Point F) → Bool
  repeats [] = false
  repeats (a ∷ []) = false
  repeats (a ∷ (b ∷ rest)) = same_point a b || repeats (b ∷ rest)

  -- the points without those that are == the next
  abbrev pub distinct : List (Point F) → List (Point F)
  distinct [] = []
  distinct (a ∷ []) = a ∷ []
  distinct (a ∷ (b ∷ rest)) =
      if same_point a b then distinct (b ∷ rest) else a ∷ distinct (b ∷ rest)

  -- The turns at the corners of the closed path: going round it twice passes each of them, also
  -- those where a point is repeated.
  abbrev pub corners : List (Point F) → List F
  corners points = turns (distinct (points ++ points))

  distinct_lem : (path : List (Point F)) → repeats path ≡ false → distinct path ≡ path
  distinct_lem [] h = refl
  distinct_lem (a ∷ []) h = refl
  distinct_lem (a ∷ (b ∷ rest)) h =
      let apart : same_point a b ≡ false = ground arith in
      rw apart (ap (◌∷◌ a) (distinct_lem (b ∷ rest) (ground arith)))

  module _ (test : F → Bool) where
    -- Some turn along the path passes the test.
    abbrev any_turn : List (Point F) → Bool
    any_turn [] = false
    any_turn (a ∷ []) = false
    any_turn (a ∷ (b ∷ [])) = false
    any_turn (a ∷ (b ∷ (c ∷ rest))) = test (cross a b c) || any_turn (b ∷ (c ∷ rest))

    -- A path can be cut between two points that both parts keep.
    any_turn-append :
        (front rest : List (Point F)) (a b : Point F)
        → any_turn (front ++ (a ∷ (b ∷ rest)))
          ≡ (any_turn (front ++ (a ∷ (b ∷ []))) || any_turn (a ∷ (b ∷ rest)))
    any_turn-append [] rest a b = refl
    any_turn-append (x ∷ []) rest a b = ground arith
    any_turn-append (x ∷ (y ∷ [])) rest a b = ground (arith, any_turn-append (y ∷ []) rest a b)
    any_turn-append (x ∷ (y ∷ (z ∷ front))) rest a b =
        ground (arith, any_turn-append (y ∷ (z ∷ front)) rest a b)

    any_turn_longer :
        (path more : List (Point F)) → any_turn path ≡ true → any_turn (path ++ more) ≡ true
    any_turn_longer [] more h = cc
    any_turn_longer (x ∷ []) more h = cc
    any_turn_longer (x ∷ (y ∷ [])) more h = cc
    any_turn_longer (x ∷ (y ∷ (z ∷ path))) more h =
        ground (arith, any_turn_longer (y ∷ (z ∷ path)) more)

    -- Going round twice shows no more turns than going on to the second point.
    any_turn_twice :
        (p0 p1 : Point F) (rest : List (Point F))
        → any_turn ((p0 ∷ p1 ∷ rest) ++ (p0 ∷ p1 ∷ rest))
          ≡ any_turn ((p0 ∷ p1 ∷ rest) ++ (p0 ∷ p1 ∷ []))
    any_turn_twice p0 p1 rest =
        let points = p0 ∷ p1 ∷ rest in
        any_turn-append points rest p0 p1
        ∙ or_absorb _ (any_turn points) (any_turn_longer points (p0 ∷ p1 ∷ []))

  right-any_turn :
      (path : List (Point F)) → turns_right (turns path) ≡ any_turn (λ z. less z (const 0)) path
  right-any_turn [] = refl
  right-any_turn (a ∷ []) = refl
  right-any_turn (a ∷ (b ∷ [])) = refl
  right-any_turn (a ∷ (b ∷ (c ∷ rest))) =
      ap (λ t. less (cross a b c) (const 0) || t) (right-any_turn (b ∷ (c ∷ rest)))

  left-any_turn :
      (path : List (Point F)) → turns_left (turns path) ≡ any_turn (λ z. less (const 0) z) path
  left-any_turn [] = refl
  left-any_turn (a ∷ []) = refl
  left-any_turn (a ∷ (b ∷ [])) = refl
  left-any_turn (a ∷ (b ∷ (c ∷ rest))) =
      ap (λ t. less (const 0) (cross a b c) || t) (left-any_turn (b ∷ (c ∷ rest)))

  -- For a series of two points or more, if it is closed three, of which no two that follow each
  -- other going round are ==: processPoints returns; it finds it convex unless the closed path turns
  -- right at some corner and left at another, and clockwise if the sum over the edges of the closed
  -- path is positive.
  pub process_points_shape :
      (laws : IsOrdered F) (p0 p1 : Point F) (rest : List (Point F)) (closed : Bool)
      → (closed && ltb (length (p0 ∷ (p1 ∷ rest))) 3) ≡ false
      → repeats ((p0 ∷ p1 ∷ rest) ++ (p0 ∷ p1 ∷ rest)) ≡ false
      → Returns
          (λ r.
            (r.convex
              ≡ not
                  (turns_right (corners (p0 ∷ p1 ∷ rest)) && turns_left (corners (p0 ∷ p1 ∷ rest))))
            × (r.clockwise
                ≡ less (const 0) (area_below ((p0 ∷ p1 ∷ rest) ++ (p0 ∷ p1 ∷ [])) (const 0))))
          (process_points (p0 ∷ p1 ∷ rest) closed)
  process_points_shape laws p0 p1 rest closed long apart =
      let points = p0 ∷ p1 ∷ rest in
      let (r, run, (convex, clockwise)) = process_points_path laws p0 p1 rest closed long in
      let twice = points ++ points in
      let on = points ++ (p0 ∷ p1 ∷ []) in
      let right : turns_right (turns twice) ≡ turns_right (turns on) =
        right-any_turn twice
        ∙ any_turn_twice (λ z. less z (const 0)) p0 p1 rest
        ∙ sym (right-any_turn on) in
      let left : turns_left (turns twice) ≡ turns_left (turns on) =
        left-any_turn twice
        ∙ any_turn_twice (λ z. less (const 0) z) p0 p1 rest
        ∙ sym (left-any_turn on) in
      (r, run, (rw (distinct_lem twice apart, right, left) convex, clockwise))
