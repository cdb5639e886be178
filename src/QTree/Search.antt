-- ===== src/QTree/Search.antt =====
-- qCompressSearch: the search of the packed tree.
use geometry.Prelude.{ℕ, zero, suc, ◌+◌, ◌%◌, ◌^◌, Bool, true, List, [], ◌∷◌}
use geometry.Prelude.Tests.{◌==◌, if◌then◌else◌}
use geometry.Prelude.Run.{Run, ok, out_of_fuel, ◌>>=◌}
use geometry.Float.{Float}
use geometry.Segment.{Rect, rect}
use geometry.Rect.{intersects_rect}
use geometry.Series.{BaseSeries, segment_at}
use geometry.Search.{Iter, go_on}
use geometry.Varint.{Addr, forward, byte_at, read_uvarint}
use geometry.QTree.{Quad, top_left, top_right, bottom_left, bottom_right, quad_bounds}

abbrev pub all_quads : List Quad
all_quads = top_left ∷ top_right ∷ bottom_left ∷ bottom_right ∷ []

module _ {ℓ κ} {F : Type ℓ} ⦃fl : Float F⦄ {S : Type κ} where
  -- for i := uint64(0); i < nitems; i++; what follows the loop is a function of the address
  unfoldable pub search_items :
      List ℕ
      → BaseSeries F
      → Rect F
      → Iter F S
      → ℕ
      → Addr
      → ℕ
      → (Addr → S → Run (S × Bool))
      → S
      → Run (S × Bool)
  search_items bytes series target iter zero addr last after s = after addr s
  search_items bytes series target iter (suc n) addr last after s = do
    (delta, next) ← read_uvarint bytes addr
    let item = (delta + last) % 2 ^ 64
    g ← segment_at series item
    go_on (if intersects_rect (rect g) target then iter s g item else ok (s, true))
        (search_items bytes series target iter n next item after)

  -- for q := 0; q < 4; q++, where `below` searches a quad from an address, in its bounds
  unfoldable pub search_quads :
      List ℕ
      → Rect F
      → Rect F
      → (Addr → Rect F → S → Run (S × Bool))
      → List Quad
      → Addr
      → S
      → Run (S × Bool)
  search_quads bytes bounds target below [] addr s = ok (s, true)
  search_quads bytes bounds target below (q ∷ qs) addr s = do
    (qsize, next) ← read_uvarint bytes addr
    if qsize == 0
        then search_quads bytes bounds target below qs next s
        else go_on
            (if intersects_rect (quad_bounds bounds q) target
              then below next (quad_bounds bounds q) s
              else ok (s, true))
            (search_quads bytes bounds target below qs (forward next qsize))

  -- what follows the loop over the items: if data[addr] == 1 { addr++; the quads }; return true
  unfoldable pub search_below :
      List ℕ → Rect F → Rect F → (Addr → Rect F → S → Run (S × Bool)) → Addr → S → Run (S × Bool)
  search_below bytes bounds target below addr s = do
    flag ← byte_at bytes addr
    if flag == 1
        then search_quads bytes bounds target below all_quads (forward addr 1) s
        else ok (s, true)

  -- The fuel bounds the depth of the calls.
  unfoldable pub q_compress_search :
      ℕ → List ℕ → Addr → BaseSeries F → Rect F → Rect F → Iter F S → S → Run (S × Bool)
  q_compress_search zero bytes addr series bounds target iter s = out_of_fuel
  q_compress_search (suc fuel) bytes addr series bounds target iter s = do
    let below : Addr → Rect F → S → Run (S × Bool) =
        λ a b t. q_compress_search fuel bytes a series b target iter t
    (nitems, first) ← read_uvarint bytes addr
    search_items bytes series target iter nitems first 0 (search_below bytes bounds target below) s
