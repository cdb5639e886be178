-- ===== src/QTree/Packed.antt =====
-- The bytes of a packed tree, as plain concatenations.
use mathlib.Core.List.{append_assoc, append-nil}
use geometry.Prelude.{
  ℕ, suc, ◌+◌, ◌-◌, ◌%◌, ◌^◌, ◌≤◌, ◌≡◌, refl, sym, ◌∙◌, true, false, List, [], ◌∷◌, ◌++◌, arith,
}
use geometry.Prelude.Tests.{if◌then◌else◌}
use geometry.Prelude.Lists.{length, length-append}
use geometry.Prelude.Sort.{sort_ints}
use geometry.Varint.{append_uvarint}
use geometry.Varint.RoundTrip.{uvarint, append_uvarint-append, length-uvarint}
use geometry.QTree.{QNode, nil, node}
use geometry.QTree.Compress.{append_items, append_quad, compress}

unfoldable pub deltas : ℕ → List ℕ → List ℕ
deltas last [] = []
deltas last (item ∷ items) = uvarint ((item + 2 ^ 64 - last) % 2 ^ 64) ++ deltas item items

-- A quad of these bytes, with its size before it.
abbrev pub slot : QNode → List ℕ → List ℕ
slot nil bytes = 0 ∷ []
slot (node split items a b c d) bytes = uvarint (length bytes) ++ bytes

unfoldable pub packed : QNode → List ℕ
packed nil = []
packed (node split items a b c d) =
    let quads =
      slot a (packed a) ++ (slot b (packed b) ++ (slot c (packed c) ++ slot d (packed d))) in
    uvarint (length (sort_ints items))
    ++ (deltas 0 (sort_ints items) ++ (if split then 1 ∷ quads else 0 ∷ []))

append_items-deltas :
    (dst : List ℕ) (last : ℕ) (items : List ℕ)
    → append_items dst last items ≡ dst ++ deltas last items
unfolding append_items deltas
append_items-deltas dst last [] = sym (append-nil dst)
append_items-deltas dst last (item ∷ items) =
    append_items-deltas (append_uvarint dst ((item + 2 ^ 64 - last) % 2 ^ 64)) item items
    ∙ rw (append_uvarint-append dst ((item + 2 ^ 64 - last) % 2 ^ 64), append_assoc)

append_quad-slot :
    (dst : List ℕ) (n : QNode) (bytes : List ℕ) → append_quad dst n bytes ≡ dst ++ slot n bytes
append_quad-slot dst nil bytes = refl
append_quad-slot dst (node split items a b c d) bytes =
    rw (append_uvarint-append dst (length bytes), append_assoc)

-- Compress appends the bytes of the tree to what is there.
pub compress-packed : (dst : List ℕ) (n : QNode) → compress dst n ≡ dst ++ packed n
unfolding compress packed
compress-packed dst nil = sym (append-nil dst)
compress-packed dst (node true items a b c d) = simp (
  append_quad-slot,
  append_items-deltas,
  append_uvarint-append dst (length (sort_ints items)),
  compress-packed [] a,
  compress-packed [] b,
  compress-packed [] c,
  compress-packed [] d,
  append_assoc,
)
compress-packed dst (node false items a b c d) =
    simp (append_items-deltas, append_uvarint-append dst (length (sort_ints items)), append_assoc)

-- The number of nodes that are packed, which bounds the depth of the calls of a search.
abbrev pub node_count : QNode → ℕ
node_count nil = 0
node_count (node split items a b c d) =
    let below = node_count a + node_count b + node_count c + node_count d in
    suc (if split then below else 0)

length-slot :
    (n : QNode) (bytes : List ℕ)
    → node_count n ≤ length bytes
    → node_count n ≤ length (slot n bytes)
length-slot nil bytes h = omega arith
length-slot (node split items a b c d) bytes h =
    omega (arith, length-append (uvarint (length bytes)) bytes)

-- Every node takes a byte at least.
pub node_count-le-length : (n : QNode) → node_count n ≤ length (packed n)
unfolding packed
node_count-le-length nil = omega arith
node_count-le-length (node false items a b c d) = ground (
  arith,
  length-uvarint (length (sort_ints items)),
  length-append (uvarint (length (sort_ints items))) (deltas 0 (sort_ints items) ++ (0 ∷ [])),
)
node_count-le-length (node true items a b c d) =
    let sa = slot a (packed a) in
    let sb = slot b (packed b) in
    let sc = slot c (packed c) in
    let sd = slot d (packed d) in
    let quads = sa ++ (sb ++ (sc ++ sd)) in
    let sorted = sort_ints items in
    omega (
      arith,
      length-append (uvarint (length sorted)) (deltas 0 sorted ++ (1 ∷ quads)),
      length-append (deltas 0 sorted) (1 ∷ quads),
      length-append sa (sb ++ (sc ++ sd)),
      length-append sb (sc ++ sd),
      length-append sc sd,
      length-slot a (packed a) (node_count-le-length a),
      length-slot b (packed b) (node_count-le-length b),
      length-slot c (packed c) (node_count-le-length c),
      length-slot d (packed d) (node_count-le-length d),
    )

pub length-deltas : (last : ℕ) (items : List ℕ) → length items ≤ length (deltas last items)
unfolding deltas
length-deltas last [] = omega arith
length-deltas last (i ∷ items) =
    let x = (i + 2 ^ 64 - last) % 2 ^ 64 in
    omega
      (arith, length-append (uvarint x) (deltas i items), length-uvarint x, length-deltas i items)
