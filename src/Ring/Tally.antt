-- ===== src/Ring/Tally.antt =====
-- Whether a ring contains a point does not depend on its index: it is decided by the numbers of
-- segments that the point lies on and that its ray crosses.
use geometry.Prelude.{
  ℕ, zero, suc, ◌^◌, ◌<◌, ◌≡◌, ◌∙◌, refl, Bool, true, false, not, Option, some, List, [], ◌∷◌, inl,
  inr, arith,
}
use geometry.Prelude.Tests.{◌==◌, if◌then◌else◌, Bool-cases}
use geometry.Prelude.Lists.{length, keep, All}
use geometry.Prelude.Counts.{
  count, range_from, count-keep, keep-SameItems, SameItems, range_from_bounds,
}
use geometry.Prelude.Removal.{length-SameItems}
use geometry.Prelude.Run.{Run, ok, Returns}
use geometry.Float.{Float}
use geometry.Float.Laws.{IsOrdered}
use geometry.Point.{Point, IsNumeric}
use geometry.Segment.{Segment}
use geometry.Segment.Raycast.{RaycastResult, raycast}
use geometry.Search.{each, is_hit}
use geometry.Series.{BaseSeries, IndexOptions, index_bytes, num_segments, segment_at}
use geometry.Series.Segments.{segment_at_lem}
use geometry.Index.{make_series}
use geometry.Index.Answers.{make_series-search_series}
use geometry.Ring.{of_series, search_ring}
use geometry.Ring.Points.{
  RingResult, no_hit, ray_line, contains_point_searcher, ring_contains_point,
}

abbrev pub is_odd : ℕ → Bool
is_odd zero = false
is_odd (suc n) = not (is_odd n)

module _ (cast : ℕ → RaycastResult) where
  -- the indices that the point lies on, and those that its ray crosses
  abbrev pub ons : List ℕ → ℕ
  ons is = length (keep (λ i. (cast i).on) is)

  abbrev pub ins : List ℕ → ℕ
  ins is = length (keep (λ i. (cast i).in_side) is)

  -- The answer for these segments: on any of them, whether that is allowed, and else by parity.
  abbrev pub tally : Bool → List ℕ → Bool → Bool
  tally allow_on_edge is hit =
      if ons is == 0 then (if is_odd (ins is) then not hit else hit) else allow_on_edge

  tally-SameItems :
      (allow_on_edge : Bool) (is js : List ℕ) (hit : Bool)
      → SameItems is js
      → tally allow_on_edge is hit ≡ tally allow_on_edge js hit
  tally-SameItems allow_on_edge is js hit same =
      rw
        (
          length-SameItems _ _ (keep-SameItems (λ i. (cast i).on) is js same),
          length-SameItems _ _ (keep-SameItems (λ i. (cast i).in_side) is js same),
        )
        refl

module _ {ℓ} {F : Type ℓ} ⦃fl : Float F⦄ (at : ℕ → Run (Segment F)) (p : Point F)
    (cast : ℕ → RaycastResult) (allow_on_edge : Bool) where
  -- The segment exists, and this is what Raycast says of it.
  abbrev pub IsCast : ℕ → Type ℓ
  IsCast i = (g : Segment F) × (at i ≡ ok g) × (raycast g p ≡ ok (cast i))

  -- Along a list of indices the searcher tallies.
  pub each-tally :
      (is : List ℕ) (s : RingResult)
      → ((i : ℕ) → 0 < count i is → IsCast i)
      → Returns
          (λ t. t.0.hit ≡ tally cast allow_on_edge is s.hit)
          (each at (contains_point_searcher p allow_on_edge) is s)
  unfolding each contains_point_searcher
  each-tally [] s known = ((s, true), refl, refl)
  each-tally (i ∷ is) s known =
      let (g, e, c) = known i (ground arith) in
      let others = λ (j : ℕ) (h : 0 < count j is). known j (omega arith) in
      elim (Bool-cases (cast i).on) [
        | inl on ↦
            let stop : RingResult × Bool = (record { hit = allow_on_edge; idx = some i }, false) in
            (stop, rw (e, c, on) refl, rw on (ground arith))
        | inr off ↦ elim (Bool-cases (cast i).in_side) [
          | inl crossed ↦
              let (t, run, answer) = each-tally is (record s { hit = not s.hit }) others in
              (t, rw (e, c, off, crossed) run, rw (off, crossed) (ground arith))
          | inr missed ↦
              let (t, run, answer) = each-tally is s others in
              (t, rw (e, c, off, missed) run, rw (off, missed) (ground arith))
        ]
      ]

module _ {ℓ} {F : Type ℓ} ⦃fl : Float F⦄ (laws : IsOrdered F) (points : List (Point F))
    (opts : Option IndexOptions) (series : BaseSeries F) (p : Point F) (cast : ℕ → RaycastResult)
    (allow_on_edge : Bool) where
  -- On a ring that makeSeries returns for fewer than 2^63 points without NaN, with or without an
  -- index, of fewer than 2^32 bytes, and where Raycast returns for every segment: ringContainsPoint
  -- returns, and it reports a hit as the tally over the segments that meet the line of the ray says,
  -- in the order of the ring.
  pub ring_contains_point-tally :
      All IsNumeric points
      → length points < 2 ^ 63
      → make_series points true opts ≡ ok series
      → length (index_bytes series) < 2 ^ 32
      → ((i : ℕ) (g : Segment F) → segment_at series i ≡ ok g → raycast g p ≡ ok (cast i))
      → (n : ℕ) × (num_segments series ≡ ok n)
        × Returns
            (λ r.
              r.hit
              ≡ tally cast allow_on_edge
                  (keep (is_hit (segment_at series) (ray_line p)) (range_from 0 n))
                  false)
            (ring_contains_point (of_series series) p allow_on_edge)
  unfolding ring_contains_point search_ring
  ring_contains_point-tally numeric short made small casts =
      let (n, counted, order, same, search) =
        make_series-search_series laws points true opts series numeric short made {S = RingResult}
          (ray_line p) small in
      let hit = is_hit (segment_at series) (ray_line p) in
      let hits = keep hit (range_from 0 n) in
      let known = λ (i : ℕ) (h : 0 < count i order).
        let (low, below) =
          range_from_bounds i 0 n (ground (arith, same i, count-keep hit i (range_from 0 n))) in
        let (g, at, _) = segment_at_lem series counted i (omega arith) in
        let result : (g : Segment F) × (segment_at series i ≡ ok g) × (raycast g p ≡ ok (cast i)) =
          (g, at, casts i g at) in
        result in
      let (t, run, answer) =
        each-tally (segment_at series) p cast allow_on_edge order no_hit known in
      (
        n,
        counted,
        (
          t.0,
          rw (search (contains_point_searcher p allow_on_edge) no_hit, run) refl,
          answer ∙ tally-SameItems cast allow_on_edge order hits false same,
        ),
      )
