-- ===== src/Index/Any.antt =====
-- The searches of a series that end at the first segment that passes a test.
use mathlib.Core.Path.{fun_ext}
use geometry.Prelude.{ℕ, ◌^◌, ◌<◌, ◌≡◌, sym, ap, ◌∙◌, Bool, Option, List, arith}
use geometry.Prelude.Lists.{length, keep, All}
use geometry.Prelude.Counts.{count, range_from, range_from_bounds, count-keep}
use geometry.Prelude.Agree.{Agree}
use geometry.Prelude.Run.{Run, ok}
use geometry.Float.{Float}
use geometry.Float.Laws.{IsOrdered}
use geometry.Point.{Point, IsNumeric}
use geometry.Segment.{Segment, Rect}
use geometry.Search.{Iter, is_hit}
use geometry.Search.Any.{any, any-SameItems, found, each-any, IsTested}
use geometry.Series.{BaseSeries, IndexOptions, index_bytes, num_segments, segment_at}
use geometry.Series.Segments.{segment_at_lem, same_segments}
use geometry.Index.{make_series, search_series}
use geometry.Index.Answers.{made-IsReady, make_series-search_series}

module _ {ℓ} {F : Type ℓ} ⦃fl : Float F⦄ (laws : IsOrdered F) (points : List (Point F))
    (closed : Bool) (numeric : All IsNumeric points) (short : length points < 2 ^ 63)
    (target : Rect F) (iter : Iter F Bool) (hit : ℕ → Bool) where
  -- The callback tests the segments of the series.
  abbrev pub IsTest : BaseSeries F → Type ℓ
  IsTest series =
      (i : ℕ) (g : Segment F)
      → segment_at series i ≡ ok g
      → (s : Bool) → iter s g i ≡ ok (found (hit i) s)

  search_series-any :
      (opts : Option IndexOptions) (series : BaseSeries F)
      → make_series points closed opts ≡ ok series
      → length (index_bytes series) < 2 ^ 32
      → IsTest series
      → (s : Bool)
      → (n : ℕ) × (num_segments series ≡ ok n)
        × (search_series series target iter s
            ≡ ok (found (any hit (keep (is_hit (segment_at series) target) (range_from 0 n))) s))
  search_series-any opts series made small test s =
      let (n, counted, order, same, search) =
        make_series-search_series laws points closed opts series numeric short made {S = Bool}
          target small in
      let meets = is_hit (segment_at series) target in
      let hits = keep meets (range_from 0 n) in
      let known = λ (i : ℕ) (h : 0 < count i order).
        let (low, below) =
          range_from_bounds i 0 n (ground (arith, same i, count-keep meets i (range_from 0 n))) in
        let (g, at, _) = segment_at_lem series counted i (omega arith) in
        let result : IsTested (segment_at series) iter hit i = (g, at, test i g at) in result in
      (
        n,
        counted,
        search iter s
            ∙ each-any (segment_at series) iter hit order s known
            ∙ ap (λ b. ok (found b s)) (any-SameItems hit order hits same),
      )

  -- For two series of the same points, with two indices or with one or none, such a search returns,
  -- and returns the same.
  pub search_series-Agree :
      (opts : Option IndexOptions) (series : BaseSeries F)
      → make_series points closed opts ≡ ok series
      → length (index_bytes series) < 2 ^ 32
      → (opts' : Option IndexOptions) (other : BaseSeries F)
      → make_series points closed opts' ≡ ok other
      → length (index_bytes other) < 2 ^ 32
      → IsTest series
      → (s : Bool) → Agree (search_series series target iter s) (search_series other target iter s)
  search_series-Agree opts series made small opts' other made' small' test s =
      let (e, c, _) = made-IsReady laws points closed opts series numeric short made in
      let (e', c', _) = made-IsReady laws points closed opts' other numeric short made' in
      let (same_count, same_at) = same_segments series other (e' ∙ sym e) (c' ∙ sym c) in
      let (n, counted, run) = search_series-any opts series made small test s in
      let (n', counted', run') =
        search_series-any opts' other made' small' (λ i g at. test i g (sym (same_at i) ∙ at)) s in
      let total : n' ≡ n = ground (arith, counted, counted', same_count) in
      let pick = λ (m : ℕ) (at : ℕ → Run (Segment F)).
        ok (found (any hit (keep (is_hit at target) (range_from 0 m))) s) in
      (_, run, run' ∙ ap (λ m. pick m (segment_at other)) total ∙ ap (pick n) (fun_ext same_at))
