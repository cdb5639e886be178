-- ===== src/Index/Moved.antt =====
-- Move of series.go, and the search of a moved series.
pub mod Tests
use mathlib.Core.Path.{subst}
use geometry.Prelude.{
  ℕ, suc, ◌+◌, ◌^◌, ◌<◌, ◌≡◌, refl, sym, ap, ◌∙◌, inl, inr, Bool, true, false, Option, none, some,
  List, [], ◌∷◌, arith,
}
use geometry.Prelude.Tests.{◌==◌, Bool-cases}
use geometry.Prelude.Lists.{length, get_elem?, keep, All}
use geometry.Prelude.Counts.{range_from, SameItems}
use geometry.Prelude.Run.{ok, Returns}
use geometry.Float.{Float}
use geometry.Float.Laws.{IsOrdered}
use geometry.Point.{Point, IsNumeric}
use geometry.Segment.{Segment, Rect}
use geometry.Search.{Iter, each, is_hit}
use geometry.Series.{BaseSeries, index_bytes, num_segments, segment_at}
use geometry.Series.Process.Bounds.{process_points-Encloses, Encloses}
use geometry.Series.Segments.{IsBounded}
use geometry.QTree.{QNode}
use geometry.Index.{
  make_series, is_built, is_present, build_index, move, move_points, search_series,
}
use geometry.Index.Build.{index_of, IsIndexed, IsPlaced-index, build_index-IsIndexed}
use geometry.Index.Answers.{IsReady, make_series-IsReady, ready-search_series}
use geometry.Index.Made.{made-parts}

module _ {ℓ} {F : Type ℓ} ⦃fl : Float F⦄ (laws : IsOrdered F) where
  -- An index is as good under another kind.
  kinded-IsReady :
      (series : BaseSeries F) (kind : ℕ)
      → IsReady laws series
      → IsReady laws (record series { index_kind = kind })
  unfolding num_segments
  kinded-IsReady series kind (inl unbuilt) = inl unbuilt
  kinded-IsReady series kind (inr (root, built)) = inr (
    root,
    record {
      total = built.total;
      counted = built.counted;
      kind = built.kind;
      indexed = built.indexed;
      full = built.full;
      placed = IsPlaced-index series kind series.index series.rect root built.placed;
      same = built.same;
    },
  )

  -- What processPoints finds for the points of a series bounds it.
  made-IsBounded :
      (points : List (Point F)) (closed : Bool) (m : BaseSeries F)
      → All IsNumeric points
      → m.points ≡ points
      → m.closed ≡ closed
      → m.rect ≡ (process_points-Encloses laws points closed).0.rect
      → IsBounded m
  made-IsBounded points closed m numeric same same_closed same_rect =
      let (p, processed, encloses) = process_points-Encloses laws points closed in
      record {
        numeric = rw same numeric;
        encloses = λ long j q e.
            subst (λ r. Encloses r q) (sym same_rect)
              (encloses (rw (← same, ← same_closed) long) j q
                (ap (λ ps. get_elem? ps j) (sym same) ∙ e));
      }

  length-move_points :
      (points : List (Point F)) (dx dy : F) → length (move_points points dx dy) ≡ length points
  length-move_points [] dx dy = refl
  length-move_points (p ∷ points) dx dy = ap suc (length-move_points points dx dy)

  build_index_built :
      (s : BaseSeries F) (bytes : List ℕ) → s.index ≡ some bytes → build_index s ≡ ok s
  unfolding build_index
  build_index_built s bytes e = let built : is_built s ≡ true = ap is_present e in rw built refl

  -- Move returns the moved points, as closed and of the same kind, with no index or one that holds
  -- the moved segments.
  pub move-IsReady :
      (series : BaseSeries F) (dx dy : F)
      → All IsNumeric (move_points series.points dx dy)
      → Returns
          (λ s.
            (s.points ≡ move_points series.points dx dy)
            × (s.closed ≡ series.closed)
            × (s.index_kind ≡ series.index_kind)
            × IsReady laws s)
          (move series dx dy)
  unfolding move
  move-IsReady series dx dy numeric =
      let points = move_points series.points dx dy in
      let (m, run, (same, same_closed, ready)) =
        make_series-IsReady laws points series.closed none numeric in
      let kinded : BaseSeries F = record m { index_kind = series.index_kind } in
      let (same_rect, _) = made-parts laws points series.closed numeric none m run in
      let bounded : IsBounded kinded =
        made-IsBounded points series.closed kinded numeric same same_closed same_rect in
      let ready' = kinded-IsReady m series.index_kind ready in
      elim (Bool-cases (length (index_bytes series) == 0)) [
        | inl bare ↦ (kinded, rw (run, bare) refl, (same, same_closed, refl, ready'))
        | inr filled ↦ elim ready' [
          | inl unbuilt ↦
              let (s, run', (root, built, e)) = build_index-IsIndexed laws kinded bounded unbuilt in
              (
                s,
                rw (run, filled) run',
                (
                  ap (λ (b : BaseSeries F). b.points) e ∙ same,
                  ap (λ (b : BaseSeries F). b.closed) e ∙ same_closed,
                  ap (λ (b : BaseSeries F). b.index_kind) e,
                  inr (root, built),
                ),
              )
          | inr (root, built) ↦
              let e : m.index ≡ some (index_of built.kind root) = built.indexed in
              (
                kinded,
                rw (run, filled) (build_index_built kinded (index_of built.kind root) e),
                (same, same_closed, refl, inr (root, built)),
              )
        ]
      ]

  -- On what Move returns for a series of fewer than 2^63 points that are moved to points without
  -- NaN, with an index of fewer than 2^32 bytes or none: its points are the moved ones, it is closed
  -- or open and of its kind as before, and Search runs its callback over the segments whose
  -- rectangles meet the target, each once, in an order that does not depend on the callback, and
  -- until that answers false.
  pub move-search_series {κ} :
      {S : Type κ} (series moved : BaseSeries F) (dx dy : F) (target : Rect F)
      → All IsNumeric (move_points series.points dx dy)
      → length series.points < 2 ^ 63
      → move series dx dy ≡ ok moved
      → length (index_bytes moved) < 2 ^ 32
      → (moved.points ≡ move_points series.points dx dy)
        × (moved.closed ≡ series.closed)
        × (moved.index_kind ≡ series.index_kind)
        × ((n : ℕ) × (num_segments moved ≡ ok n)
            × (order : List ℕ) × SameItems order
                (keep (is_hit (segment_at moved) target) (range_from 0 n))
            × ((iter : Iter F S) (s : S)
                → search_series moved target iter s ≡ each (segment_at moved) iter order s))
  move-search_series series moved dx dy target numeric short run small =
      let (m, run', (same, same_closed, same_kind, ready)) = move-IsReady series dx dy numeric in
      let e : m ≡ moved = cc in
      let ready' = subst (IsReady laws) e ready in
      let same' : moved.points ≡ move_points series.points dx dy =
        subst (λ (b : BaseSeries F). b.points ≡ move_points series.points dx dy) e same in
      let few : length moved.points < 2 ^ 63 =
        rw same' (omega (arith, length-move_points series.points dx dy)) in
      (
        same',
        subst (λ (b : BaseSeries F). b.closed ≡ series.closed) e same_closed,
        subst (λ (b : BaseSeries F). b.index_kind ≡ series.index_kind) e same_kind,
        ready-search_series laws moved target ready' few small,
      )
