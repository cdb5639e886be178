-- ===== src/Index.antt =====
-- series.go: making a series, building its index, and the search that uses it. The functions
-- PutUint32 and Uint32 are those of binary.LittleEndian in Go's standard library.
pub mod Build
pub mod Answers
pub mod Any
pub mod Made
pub mod Moved
pub mod Tests
use geometry.Prelude.{
  ℕ, zero, suc, ◌+◌, ◌-◌, ◌*◌, ◌/◌, ◌%◌, ◌^◌, Bool, true, false, not, ◌&&◌, Option, none, some,
  List, [], ◌∷◌,
}
use geometry.Prelude.Tests.{ltb, leb, ◌==◌, if◌then◌else◌}
use geometry.Prelude.Lists.{length, get_elem?, set, take}
use geometry.Prelude.Run.{Run, ok, panic, ◌>>=◌, or_panic}
use geometry.Float.{Float, ◌⊕◌}
use geometry.Point.{Point, pt}
use geometry.Segment.{Rect, rect}
use geometry.Search.{Iter, scan}
use geometry.Series.{
  BaseSeries, IndexOptions, default_index_options, index_bytes, num_segments, segment_at,
}
use geometry.Series.Process.{process_points}
use geometry.QTree.{QNode, new_node, insert, q_max_depth}
use geometry.QTree.Compress.{compress}
use geometry.QTree.Search.{q_compress_search}

-- binary.LittleEndian.PutUint32(bytes[1:], v)
unfoldable pub put_uint32 : List ℕ → ℕ → Run (List ℕ)
put_uint32 (kind ∷ b₀ ∷ b₁ ∷ b₂ ∷ b₃ ∷ rest) v =
    ok (kind ∷ v % 2 ^ 8 ∷ v / 2 ^ 8 % 2 ^ 8 ∷ v / 2 ^ 16 % 2 ^ 8 ∷ v / 2 ^ 24 % 2 ^ 8 ∷ rest)
put_uint32 _ v = panic

-- binary.LittleEndian.Uint32(bytes[1:])
unfoldable pub uint32 : List ℕ → Run ℕ
uint32 (kind ∷ b₀ ∷ b₁ ∷ b₂ ∷ b₃ ∷ rest) = ok (b₀ + b₁ * 2 ^ 8 + b₂ * 2 ^ 16 + b₃ * 2 ^ 24)
uint32 _ = panic

-- data[:n:n]
abbrev pub first_bytes : List ℕ → ℕ → Run (List ℕ)
first_bytes bytes n = if leb n (length bytes) then ok (take n bytes) else panic

-- a slice that is not nil
abbrev pub is_present : Option (List ℕ) → Bool
is_present none = false
is_present (some bytes) = true

-- nil stands for the default options.
abbrev pub options : Option IndexOptions → IndexOptions
options none = default_index_options
options (some opts) = opts

module _ {ℓ} {F : Type ℓ} where
  unfoldable pub clear_index : BaseSeries F → BaseSeries F
  clear_index series = record series { index = none }

  -- The copy has the same bytes.
  unfoldable pub set_compressed : BaseSeries F → List ℕ → Run (BaseSeries F)
  set_compressed series bytes = do
    stamped ← put_uint32 bytes (length bytes % 2 ^ 32)
    ok (record series { index = some stamped })

module _ {ℓ} {F : Type ℓ} ⦃fl : Float F⦄ where
  -- the loop of buildIndex, with n rounds from segment i on
  unfoldable pub insert_segments : BaseSeries F → ℕ → ℕ → QNode → Run QNode
  insert_segments series zero i root = ok root
  insert_segments series (suc n) i root = do
    g ← segment_at series i
    grown ← insert series q_max_depth root series.rect (rect g) i
    insert_segments series n (i + 1) grown

  abbrev pub is_built : BaseSeries F → Bool
  is_built series = is_present series.index

  unfoldable pub build_index : BaseSeries F → Run (BaseSeries F)
  build_index series = if is_built series then ok series else do
    n ← num_segments series
    root ← insert_segments series n 0 new_node
    set_compressed series (compress (series.index_kind % 2 ^ 8 ∷ 0 ∷ 0 ∷ 0 ∷ 0 ∷ []) root)

  -- Slices are values here, so copyPoints makes no difference; MinPoints is not negative.
  unfoldable pub make_series : List (Point F) → Bool → Option IndexOptions → Run (BaseSeries F)
  make_series points closed opts = do
    p ← process_points points closed
    let series : BaseSeries F = record {
      closed = closed;
      clockwise = p.clockwise;
      convex = p.convex;
      index_kind = 0;
      index = none;
      rect = p.rect;
      points = points;
    }
    let o = options opts
    if not (o.min_points == 0) && leb o.min_points (length points)
        then build_index (record series { index_kind = o.kind })
        else ok series

  abbrev pub move_points : List (Point F) → F → F → List (Point F)
  move_points [] dx dy = []
  move_points (p ∷ points) dx dy = pt (p.x ⊕ dx) (p.y ⊕ dy) ∷ move_points points dx dy

  -- (*baseSeries).Move
  unfoldable pub move : BaseSeries F → F → F → Run (BaseSeries F)
  move series dx dy = do
    moved ← make_series (move_points series.points dx dy) series.closed none
    let kinded = record moved { index_kind = series.index_kind }
    if length (index_bytes series) == 0 then ok kinded else build_index kinded

  -- (*baseSeries).Search, with the final state of the callback
  unfoldable pub search_series {κ} :
      {S : Type κ} → BaseSeries F → Rect F → Iter F S → S → Run (S × Bool)
  search_series series target iter s =
      let bytes = index_bytes series in
      if length bytes == 0
      then (do n ← num_segments series; scan (segment_at series) target iter n 0 s)
      else (do
        n ← uint32 bytes
        packed ← first_bytes bytes n
        q_compress_search (length packed) packed (some 5) series series.rect target iter s)
