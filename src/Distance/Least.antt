-- ===== src/Distance/Least.antt =====
-- DistanceToSeries on what makeSeries returns.
use mathlib.Core.Path.{subst}
use geometry.Prelude.{ℕ, ◌^◌, ◌<◌, ◌≡◌, sym, ◌∙◌, inl, inr, true, false, Bool, Option, List, arith}
use geometry.Prelude.Lists.{length, All}
use geometry.Prelude.Run.{ok, Returns}
use geometry.Float.{Float, less, same, IsNumber}
use geometry.Float.Laws.{IsOrdered}
use geometry.Point.{Point, IsNumeric}
use geometry.Segment.{Segment, Rect, rect}
use geometry.Rect.{contains_rect}
use geometry.Rect.Order.{IsNumericRect}
use geometry.Series.{BaseSeries, IndexOptions, index_bytes, num_segments, segment_at}
use geometry.Series.Segments.{same_segments}
use geometry.Ring.{of_series}
use geometry.Index.{make_series}
use geometry.Index.Answers.{made-IsReady}
use geometry.Distance.{distance_to_series}
use geometry.Distance.Found.{Found, segment_at-IsNumber, distance_to_series-Found}

module _ {ℓ} {F : Type ℓ} ⦃fl : Float F⦄ (laws : IsOrdered F) (to_rect : Rect F → F)
    (to_segment : Segment F → F)
    (number : (g : Segment F) → IsNumericRect (rect g) → IsNumber (to_segment g))
    (number_rect : (r : Rect F) → IsNumber (to_rect r))
    (bound : (r : Rect F) (g : Segment F)
      → contains_rect r (rect g) ≡ true
      → less (to_segment g) (to_rect r) ≡ false) where
  module _ (points : List (Point F)) (closed : Bool) (opts : Option IndexOptions)
      (series : BaseSeries F) (numeric : All IsNumeric points) (short : length points < 2 ^ 63)
      (made : make_series points closed opts ≡ ok series)
      (small : length (index_bytes series) < 2 ^ 32) {n : ℕ}
      (counted : num_segments series ≡ ok n) where
    made-Found :
        (few : length series.points < 2 ^ 63) × Returns
          (Found laws to_rect to_segment number number_rect bound series few n)
          (distance_to_series (of_series series) to_rect to_segment)
    made-Found =
        let (e, _, ready) = made-IsReady laws points closed opts series numeric short made in
        let few : length series.points < 2 ^ 63 = rw e short in
        (
          few,
          distance_to_series-Found laws to_rect to_segment number number_rect bound series few n
              ready small (rw e numeric) counted,
        )

  module _ (points : List (Point F)) (closed : Bool) (opts : Option IndexOptions)
      (series : BaseSeries F) (numeric : All IsNumeric points) (short : length points < 2 ^ 63)
      (made : make_series points closed opts ≡ ok series)
      (small : length (index_bytes series) < 2 ^ 32) {n : ℕ}
      (counted : num_segments series ≡ ok n) where
    -- On a series that makeSeries returns for fewer than 2^63 points without NaN, with an index of
    -- fewer than 2^32 bytes or none, DistanceToSeries returns a segment of the series and its
    -- distance, and no segment of the series is nearer. The distances must be numbers, and no
    -- segment nearer than a rectangle that contains its rectangle.
    pub distance_to_series_least :
        (x : ℕ) (g : Segment F)
        → x < n
        → segment_at series x ≡ ok g
        → Returns
            (λ r.
              (i : ℕ) × (i < n)
              × (segment_at series i ≡ ok r.nearest)
              × (r.dist ≡ to_segment r.nearest)
              × (less (to_segment g) r.dist ≡ false))
            (distance_to_series (of_series series) to_rect to_segment)
    distance_to_series_least x g low at =
        let (few, (r, run, found)) =
          made-Found points closed opts series numeric short made small counted in
        elim found [
          | inl (none, _) ↦ absurd (omega arith)
          | inr (i, low', here, far, least) ↦ (r, run, (i, low', here, far, least x g low at))
        ]

    -- Of a series without segments that makeSeries returns for fewer than 2^63 points without NaN,
    -- with an index of fewer than 2^32 bytes or none, DistanceToSeries returns the distance NaN. The
    -- distances of the callbacks must be numbers, and no segment nearer than a rectangle that contains
    -- its rectangle.
    pub distance_to_series_empty :
        n ≡ 0
        → Returns (λ r. r.dist ≡ fl.nan) (distance_to_series (of_series series) to_rect to_segment)
    distance_to_series_empty none =
        let (few, (r, run, found)) =
          made-Found points closed opts series numeric short made small counted in
        elim found [ inl (_, nan) ↦ (r, run, nan) | inr (i, low, _, _, _) ↦ absurd (omega arith) ]

    module _ (opts' : Option IndexOptions) (other : BaseSeries F)
        (made' : make_series points closed opts' ≡ ok other)
        (small' : length (index_bytes other) < 2 ^ 32) where
      -- On two series with segments that makeSeries returns for the same points, fewer than 2^63 and
      -- without NaN, each with an index of fewer than 2^32 bytes or none, DistanceToSeries returns
      -- distances that are ==: they depend neither on the kind of index nor on whether there is one. The
      -- distances of the callbacks must be numbers, and no segment nearer than a rectangle that contains
      -- its rectangle.
      pub distance_to_series-same :
          0 < n
          → Returns
              (λ r.
                Returns
                  (λ r'. same r.dist r'.dist ≡ true)
                  (distance_to_series (of_series other) to_rect to_segment))
              (distance_to_series (of_series series) to_rect to_segment)
      distance_to_series-same some_segment =
          let (e, c, _) = made-IsReady laws points closed opts series numeric short made in
          let (e', c', _) = made-IsReady laws points closed opts' other numeric short made' in
          let (same_count, same_segment) = same_segments series other (e' ∙ sym e) (c' ∙ sym c) in
          let (few, (r, run, found)) =
            made-Found points closed opts series numeric short made small counted in
          let (few', (r', run', found')) =
            made-Found points closed opts' other numeric short made' small'
              (same_count ∙ counted) in
          let is_number =
            λ (i : ℕ) (low : i < n) (h : Segment F) (here : segment_at series i ≡ ok h).
              let (g, at, known) =
                segment_at-IsNumber laws to_rect to_segment number series counted (rw e numeric) i
                  low in
              let same_one : g ≡ h = cc in subst (λ s. IsNumber (to_segment s)) same_one known in
          elim found [
            | inl (none, _) ↦ absurd (omega arith)
            | inr (i, low, here, far, least) ↦ elim found' [
              | inl (none, _) ↦ absurd (omega arith)
              | inr (i', low', here', far', least') ↦
                  let at' : segment_at series i' ≡ ok r'.nearest = sym (same_segment i') ∙ here' in
                  let le : less r.dist r'.dist ≡ false =
                    rw far (least' i r.nearest low (same_segment i ∙ here)) in
                  let ge : less r'.dist r.dist ≡ false = rw far' (least i' r'.nearest low' at') in
                  (
                    r,
                    run,
                    (
                      r',
                      run',
                      laws.same_of_not_less r.dist r'.dist (rw far (is_number i low r.nearest here))
                          (rw far' (is_number i' low' r'.nearest at')) le ge,
                    ),
                  )
            ]
          ]
