-- ===== src/QTree/Compress.antt =====
-- qNode.compress: the packed form of the tree.
use geometry.Prelude.{ℕ, ◌+◌, ◌-◌, ◌%◌, ◌^◌, List, [], ◌∷◌, ◌++◌}
use geometry.Prelude.Tests.{if◌then◌else◌}
use geometry.Prelude.Lists.{length}
use geometry.Prelude.Sort.{sort_ints}
use geometry.Varint.{append_uvarint}
use geometry.QTree.{QNode, nil, node}

-- the loop over the sorted items: each as its distance uint64(item-last) from the one before
unfoldable pub append_items : List ℕ → ℕ → List ℕ → List ℕ
append_items dst last [] = dst
append_items dst last (item ∷ items) =
    append_items (append_uvarint dst ((item + 2 ^ 64 - last) % 2 ^ 64)) item items

-- a quad: its size and its bytes, which are given here; or 0 for nil
abbrev pub append_quad : List ℕ → QNode → List ℕ → List ℕ
append_quad dst nil bytes = dst ++ (0 ∷ [])
append_quad dst (node split items a b c d) bytes = append_uvarint dst (length bytes) ++ bytes

-- It is never called on nil.
unfoldable pub compress : List ℕ → QNode → List ℕ
compress dst nil = dst
compress dst (node split items a b c d) =
    let sorted = sort_ints items in
    let head = append_items (append_uvarint dst (length sorted)) 0 sorted in
    let quads =
      append_quad
        (append_quad
          (append_quad (append_quad (head ++ (1 ∷ [])) a (compress [] a)) b (compress [] b)) c
          (compress [] c))
        d (compress [] d) in
    if split then quads else head ++ (0 ∷ [])
