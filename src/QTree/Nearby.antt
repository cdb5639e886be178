-- ===== src/QTree/Nearby.antt =====
-- qCompressNearbySegment: the search of the packed tree for the segment nearest to something,
-- which the caller gives by its distances to rectangles and to segments. The queue starts empty,
-- as `(*q)[:0]` leaves it.
pub mod Queued
pub mod Least
pub mod Items
pub mod Pushed
pub mod Node
pub mod Finds
pub mod Tests
use geometry.Prelude.{ℕ, zero, suc, ◌+◌, ◌%◌, ◌^◌, Bool, Option, none, some, List, [], ◌∷◌}
use geometry.Prelude.Tests.{◌==◌, if◌then◌else◌}
use geometry.Prelude.Run.{Run, ok, panic, out_of_fuel, ◌>>=◌}
use geometry.Float.{Float, less}
use geometry.Segment.{Segment, Rect, seg, box}
use geometry.Series.{BaseSeries, segment_at}
use geometry.Series.Process.{zero_point}
use geometry.Varint.{Addr, forward, byte_at, read_uvarint}
use geometry.Queue.{QueueNode, q_rect, q_seg, push, pop}
use geometry.QTree.{Quad, quad_bounds}
use geometry.QTree.Search.{all_quads}

-- the three results, with `none` for the index -1
pub record Nearest {ℓ} (F : Type ℓ) : Type ℓ where
  pub nearest : Segment F
  pub idx : Option ℕ
  pub dist : F

-- int(addr), behind a number that is not 0; only behind a 0 is the address -1
abbrev pub address : Addr → Run ℕ
address none = panic
address (some a) = ok a

module _ {ℓ} {F : Type ℓ} ⦃fl : Float F⦄ where
  abbrev pub seg_node : Segment F → F → ℕ → QueueNode F
  seg_node g dist item = record { dist = dist; kind = q_seg; pos = item; a = g.a; b = g.b }

  abbrev pub rect_node : Rect F → F → ℕ → QueueNode F
  rect_node r dist addr = record { dist = dist; kind = q_rect; pos = addr; a = r.min; b = r.max }

  -- if !nearSet || dist < nearSeg.dist, where `none` is an unset nearSeg
  abbrev pub nearer : Option (QueueNode F) → QueueNode F → QueueNode F
  nearer none n = n
  nearer (some m) n = if less n.dist m.dist then n else m

  -- for i := uint64(0); i < nitems; i++
  unfoldable pub near_items :
      List ℕ
      → BaseSeries F
      → (Segment F → F)
      → ℕ
      → Addr
      → ℕ
      → Option (QueueNode F)
      → Run (Option (QueueNode F) × Addr)
  near_items bytes series dist_to_segment zero addr last near = ok (near, addr)
  near_items bytes series dist_to_segment (suc n) addr last near = do
    (delta, next) ← read_uvarint bytes addr
    let item = (delta + last) % 2 ^ 64
    g ← segment_at series item
    near_items bytes series dist_to_segment n next item
        (some (nearer near (seg_node g (dist_to_segment g) item)))

  abbrev pub push_set : List (QueueNode F) → Option (QueueNode F) → Run (List (QueueNode F))
  push_set q none = ok q
  push_set q (some n) = push q n

  -- for i := 0; i < 4; i++
  unfoldable pub push_quads :
      List ℕ
      → Rect F
      → (Rect F → F)
      → List Quad
      → Addr
      → List (QueueNode F)
      → Run (List (QueueNode F))
  push_quads bytes bounds dist_to_rect [] addr q = ok q
  push_quads bytes bounds dist_to_rect (i ∷ is) addr q = do
    (qsize, next) ← read_uvarint bytes addr
    if qsize == 0 then push_quads bytes bounds dist_to_rect is next q else do
      a ← address next
      grown ← push q (rect_node (quad_bounds bounds i) (dist_to_rect (quad_bounds bounds i)) a)
      push_quads bytes bounds dist_to_rect is (forward next qsize) grown

  -- what the node at an address adds to the queue
  unfoldable pub push_node :
      List ℕ
      → Addr
      → BaseSeries F
      → Rect F
      → (Rect F → F)
      → (Segment F → F)
      → List (QueueNode F)
      → Run (List (QueueNode F))
  push_node bytes addr series bounds dist_to_rect dist_to_segment q = do
    (nitems, first) ← read_uvarint bytes addr
    (near, next) ← near_items bytes series dist_to_segment nitems first 0 none
    grown ← push_set q near
    flag ← byte_at bytes next
    if flag == 1
        then push_quads bytes bounds dist_to_rect all_quads (forward next 1) grown
        else ok grown

  -- The fuel bounds the rounds of the outer loop.
  unfoldable pub q_compress_nearby_segment :
      ℕ
      → List ℕ
      → Addr
      → BaseSeries F
      → Rect F
      → (Rect F → F)
      → (Segment F → F)
      → List (QueueNode F)
      → Run (Nearest F)
  q_compress_nearby_segment zero bytes addr series bounds dist_to_rect dist_to_segment q =
      out_of_fuel
  q_compress_nearby_segment (suc fuel) bytes addr series bounds dist_to_rect dist_to_segment q = do
    grown ← push_node bytes addr series bounds dist_to_rect dist_to_segment q
    (popped, left) ← pop grown
    elim popped [
      | none ↦ ok (record { nearest = seg zero_point zero_point; idx = none; dist = fl.nan })
      | some n ↦ elim n.kind [
        | q_seg ↦ ok (record { nearest = seg n.a n.b; idx = some n.pos; dist = n.dist })
        | q_rect ↦
            q_compress_nearby_segment fuel bytes (some n.pos) series (box n.a n.b) dist_to_rect
              dist_to_segment left
      ]
    ]
