-- ===== src/Series/Process/Shape.antt =====
-- The winding order and the convexity that processPoints finds, against their definitions on the
-- closed path of the points.
use geometry.Prelude.{
  ℕ, suc, ◌+◌, ◌-◌, ◌≤◌, ◌≡◌, refl, ap, ◌∙◌, Bool, true, false, not, ◌&&◌, ◌||◌, inl, inr, some,
  List, [], ◌∷◌, ◌++◌, arith,
}
use geometry.Prelude.Tests.{ltb, ◌==◌, if◌then◌else◌, Bool-cases}
use geometry.Prelude.Lists.{length, drop, drop-cons, get_elem?}
use geometry.Prelude.Run.{ok, Returns}
use geometry.Float.{Float, ◌⊕◌, ◌⊖◌, ◌⊗◌, const, less}
use geometry.Float.Laws.{IsOrdered}
use geometry.Point.{Point}
use geometry.Series.Process.{
  Turn, straight, negative, positive, Pass, start, turn, visit, pass_from, process_points,
}

-- the direction after some turns, where not both have been seen
abbrev direction : Bool → Bool → Turn
direction right left = if right then negative else if left then positive else straight

module _ {ℓ} {F : Type ℓ} ⦃fl : Float F⦄ where
  -- the cross product of the two edges at b
  abbrev pub cross : Point F → Point F → Point F → F
  cross a b c = (b.x ⊖ a.x) ⊗ (c.y ⊖ b.y) ⊖ (b.y ⊖ a.y) ⊗ (c.x ⊖ b.x)

  -- the cross products along a path, at each point that has two after it
  abbrev pub turns : List (Point F) → List F
  turns [] = []
  turns (a ∷ []) = []
  turns (a ∷ (b ∷ [])) = []
  turns (a ∷ (b ∷ (c ∷ rest))) = cross a b c ∷ turns (b ∷ (c ∷ rest))

  -- twice the signed area below a path, without its last edge
  abbrev pub area_below : List (Point F) → F → F
  area_below [] sum = sum
  area_below (a ∷ []) sum = sum
  area_below (a ∷ (b ∷ [])) sum = sum
  area_below (a ∷ (b ∷ (c ∷ rest))) sum =
      area_below (b ∷ (c ∷ rest)) (sum ⊕ (b.x ⊖ a.x) ⊗ (b.y ⊕ a.y))

  -- Some of these is negative, or positive.
  abbrev pub turns_right : List F → Bool
  turns_right [] = false
  turns_right (z ∷ zs) = less z (const 0) || turns_right zs

  abbrev pub turns_left : List F → Bool
  turns_left [] = false
  turns_left (z ∷ zs) = less (const 0) z || turns_left zs

  -- the loop on a path
  abbrev walk : List (Point F) → ℕ → Pass F → Pass F
  walk [] i s = s
  walk (a ∷ []) i s = s
  walk (a ∷ (b ∷ [])) i s = s
  walk (a ∷ (b ∷ (c ∷ rest))) i s = walk (b ∷ (c ∷ rest)) (i + 1) (visit i s a b c)

  walk-cwc :
      (path : List (Point F)) (i : ℕ) (s : Pass F) → (walk path i s).cwc ≡ area_below path s.cwc
  unfolding visit
  walk-cwc [] i s = refl
  walk-cwc (a ∷ []) i s = refl
  walk-cwc (a ∷ (b ∷ [])) i s = refl
  walk-cwc (a ∷ (b ∷ (c ∷ rest))) i s = walk-cwc (b ∷ (c ∷ rest)) (i + 1) (visit i s a b c)

  -- What the loop has noted of the turns seen.
  abbrev Noted : Bool → Bool → Pass F → Type 0
  Noted right left s =
      (s.concave ≡ (right && left)) × ((right && left) ≡ false → s.dir ≡ direction right left)

  module _ (laws : IsOrdered F) where
    open laws use {less_asymm}

    turn-Noted :
        (z : F) (right left : Bool)
        → (right && left) ≡ false
        → ((turn z (direction right left, false)).1
            ≡ ((less z (const 0) || right) && (less (const 0) z || left)))
          × (((less z (const 0) || right) && (less (const 0) z || left)) ≡ false
              → (turn z (direction right left, false)).0
                ≡ direction (less z (const 0) || right) (less (const 0) z || left))
    unfolding turn
    turn-Noted z right left h = ground (arith, less_asymm z (const 0))

    visit-Noted :
        (i : ℕ) (s : Pass F) (a b c : Point F) (right left : Bool)
        → Noted right left s
        → Noted
            (less (cross a b c) (const 0) || right)
            (less (const 0) (cross a b c) || left)
            (visit i s a b c)
    unfolding visit
    visit-Noted i s a b c right left (concave, dir) =
        let z = cross a b c in
        elim (Bool-cases (right && left)) [
          | inl both ↦
              let seen : s.concave ≡ true = concave ∙ both in
              rw seen (ground arith, λ h. absurd (ground arith))
          | inr one ↦
              let unseen : s.concave ≡ false = concave ∙ one in
              rw (unseen, dir one) (turn-Noted z right left one)
        ]

    walk-Noted :
        (path : List (Point F)) (i : ℕ) (s : Pass F) (right left : Bool)
        → Noted right left s
        → (walk path i s).concave
          ≡ ((turns_right (turns path) || right) && (turns_left (turns path) || left))
    walk-Noted [] i s right left h = h.0
    walk-Noted (a ∷ []) i s right left h = h.0
    walk-Noted (a ∷ (b ∷ [])) i s right left h = h.0
    walk-Noted (a ∷ (b ∷ (c ∷ rest))) i s right left h =
        let z = cross a b c in
        let ih =
          walk-Noted (b ∷ (c ∷ rest)) (i + 1) (visit i s a b c) (less z (const 0) || right)
            (less (const 0) z || left) (visit-Noted i s a b c right left h) in
        ih ∙ ground arith

  module _ (points : List (Point F)) (p0 p1 : Point F) (e0 : get_elem? points 0 ≡ some p0)
      (e1 : get_elem? points 1 ≡ some p1) where
    -- the indices of the two points after the i-th
    abbrev after : ℕ → ℕ
    after i = if i == length points - 1 then 0 else i + 1

    abbrev second_after : ℕ → ℕ
    second_after i =
        if i == length points - 1 then 1 else if i == length points - 2 then 0 else i + 2

    round-walk :
        (i rounds : ℕ) (s : Pass F) (a b c : Point F)
        → get_elem? points i ≡ some a
        → get_elem? points (after i) ≡ some b
        → get_elem? points (second_after i) ≡ some c
        → pass_from points (suc rounds) i s ≡ pass_from points rounds (i + 1) (visit i s a b c)
    unfolding pass_from
    round-walk i rounds s a b c ea eb ec = rw (ea, eb, ec) refl

    -- The loop of processPoints walks along the points and on to the second of them.
    pass_from-walk :
        (rest : List (Point F)) (i : ℕ) (s : Pass F)
        → drop i points ≡ rest
        → i + length rest ≡ length points
        → 2 ≤ length points
        → pass_from points (length rest) i s ≡ ok (walk (rest ++ (p0 ∷ p1 ∷ [])) i s)
    unfolding pass_from
    pass_from-walk [] i s at e two = refl
    pass_from-walk (a ∷ []) i s at e two =
        let (ea, next) = drop-cons points i at in
        let eb : get_elem? points (after i) ≡ some p0 = ap (get_elem? points) (ground arith) ∙ e0 in
        let ec : get_elem? points (second_after i) ≡ some p1 =
          ap (get_elem? points) (ground arith) ∙ e1 in
        round-walk i 0 s a p0 p1 ea eb ec
        ∙ pass_from-walk [] (i + 1) (visit i s a p0 p1) next (omega arith) two
    pass_from-walk (a ∷ (b ∷ [])) i s at e two =
        let (ea, next) = drop-cons points i at in
        let (eb', _) = drop-cons points (i + 1) next in
        let eb : get_elem? points (after i) ≡ some b = ap (get_elem? points) (ground arith) ∙ eb' in
        let ec : get_elem? points (second_after i) ≡ some p0 =
          ap (get_elem? points) (ground arith) ∙ e0 in
        round-walk i 1 s a b p0 ea eb ec
        ∙ pass_from-walk (b ∷ []) (i + 1) (visit i s a b p0) next (omega arith) two
    pass_from-walk (a ∷ (b ∷ (c ∷ rest))) i s at e two =
        let (ea, next) = drop-cons points i at in
        let (eb', next') = drop-cons points (i + 1) next in
        let (ec', _) = drop-cons points (i + 1 + 1) next' in
        let eb : get_elem? points (after i) ≡ some b = ap (get_elem? points) (ground arith) ∙ eb' in
        let ec : get_elem? points (second_after i) ≡ some c =
          ap (get_elem? points) (ground arith) ∙ ec' in
        round-walk i (suc (suc (length rest))) s a b c ea eb ec
        ∙ pass_from-walk (b ∷ (c ∷ rest)) (i + 1) (visit i s a b c) next (omega arith) two

  -- The loop turns at the points of this path, in this order.
  pub process_points_path :
      (laws : IsOrdered F) (p0 p1 : Point F) (rest : List (Point F)) (closed : Bool)
      → (closed && ltb (length (p0 ∷ (p1 ∷ rest))) 3) ≡ false
      → Returns
          (λ r.
            (r.convex
              ≡ not (
                  turns_right (turns ((p0 ∷ p1 ∷ rest) ++ (p0 ∷ p1 ∷ [])))
                  && turns_left (turns ((p0 ∷ p1 ∷ rest) ++ (p0 ∷ p1 ∷ [])))))
            × (r.clockwise
                ≡ less (const 0) (area_below ((p0 ∷ p1 ∷ rest) ++ (p0 ∷ p1 ∷ [])) (const 0))))
          (process_points (p0 ∷ p1 ∷ rest) closed)
  unfolding process_points
  process_points_path laws p0 p1 rest closed long =
      let points = p0 ∷ p1 ∷ rest in
      let path = points ++ (p0 ∷ p1 ∷ []) in
      let long' : (closed && ltb (length points) 3 || ltb (length points) 2) ≡ false =
        ground arith in
      let run =
        pass_from-walk points p0 p1 refl refl points 0 start refl (omega arith) (omega arith) in
      let concave = walk-Noted laws path 0 start false false (refl, λ h. refl) in
      let sum = walk-cwc path 0 start in
      rw (long', run) (_, refl, (ap not (concave ∙ ground arith), ap (less (const 0)) sum))
