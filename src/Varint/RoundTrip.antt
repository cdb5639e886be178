-- ===== src/Varint/RoundTrip.antt =====
-- What appendUvarint writes, readUvarint reads back, at any place in the slice.
use Prim.Native.Nat.{bit_and}
use native.Mathlib.Nat.{div-add-mod, pow-suc}
use native.Mathlib.Decide.{dec_lt}
use mathlib.Core.List.{append_assoc}
use native.Mathlib.Numerals.{towards_suc}
use geometry.Prelude.{
  ℕ, zero, suc, ◌+◌, ◌*◌, ◌/◌, ◌%◌, ◌^◌, ◌≤◌, ◌<◌, ◌≡◌, ◌≢◌, ap, some, List, [], ◌∷◌, ◌++◌, arith,
}
use geometry.Prelude.Lists.{length, drop, drop-cons, drop-append, length-append}
use geometry.Prelude.Run.{ok}
use geometry.Varint.{IsU64, put_uvarint, append_uvarint, read_loop, read_uvarint}
use geometry.Varint.Bits.{low_bits, top_bit, bit_or_field}

shift_seven : (s : ℕ) → 2 ^ (s + 7) ≡ 128 * 2 ^ s
shift_seven s = simp towards_suc (omega arith)

-- The bytes that are appended for a number.
abbrev pub uvarint : ℕ → List ℕ
uvarint x = append_uvarint [] x

pub append_uvarint-append : (dst : List ℕ) (x : ℕ) → append_uvarint dst x ≡ dst ++ uvarint x
unfolding append_uvarint
append_uvarint-append dst x = ground arith

length-put_uvarint :
    (room x : ℕ)
    → (1 ≤ length (put_uvarint (suc room) x)) × (length (put_uvarint (suc room) x) ≤ suc room)
unfolding put_uvarint
length-put_uvarint zero x = ground arith
length-put_uvarint (suc room) x = ground (arith, length-put_uvarint room (x / 128))

-- A number takes one byte at least and ten at most.
pub length-uvarint : (x : ℕ) → (1 ≤ length (uvarint x)) × (length (uvarint x) ≤ 10)
unfolding append_uvarint
length-uvarint x = ground (arith, length-put_uvarint 9 x)

put_last : (room x : ℕ) → x < 128 → put_uvarint (suc room) x ≡ x ∷ []
unfolding put_uvarint
put_last room x h = ground arith

put_more :
    (room x : ℕ) → 128 ≤ x → put_uvarint (suc room) x ≡ (x % 128 + 128) ∷ put_uvarint room (x / 128)
unfolding put_uvarint
put_more room x h = ground (arith, top_bit (x % 256))

split_field : (x s : ℕ) → x * 2 ^ s ≡ x % 128 * 2 ^ s + x / 128 * 2 ^ (s + 7)
split_field x s = omega (
  arith,
  ap (λ (t : ℕ). t * 2 ^ s) (div-add-mod x 128),
  ap (λ (t : ℕ). x / 128 * t) (shift_seven s),
)

-- One round of the loop, on a last byte and on one that others follow.
module _ (fuel s item a : ℕ) (bytes rest : List ℕ) (fits : item < 2 ^ s) where
  read_last :
      (w : ℕ)
      → w < 128
      → item + w * 2 ^ s < 2 ^ 64
      → drop a bytes ≡ w ∷ rest
      → read_loop (suc fuel) bytes (some a) item s ≡ ok (item + w * 2 ^ s, some (a + 1))
  unfolding read_loop
  read_last w hw small here =
      let e : w * 2 ^ s % 2 ^ 64 ≡ w * 2 ^ s = omega arith in
      rw ((drop-cons bytes a here).0, e, bit_or_field s item w fits) (ground arith)

  read_more :
      (g : ℕ)
      → g < 128
      → s + 7 ≢ 70
      → item + g * 2 ^ s < 2 ^ 64
      → drop a bytes ≡ (g + 128) ∷ rest
      → read_loop (suc fuel) bytes (some a) item s
        ≡ read_loop fuel bytes (some (a + 1)) (item + g * 2 ^ s) (s + 7)
  unfolding read_loop
  read_more g hg hs small here =
      let low : bit_and (g + 128) 0x7f ≡ g = omega (arith, low_bits (g + 128)) in
      let e : g * 2 ^ s % 2 ^ 64 ≡ g * 2 ^ s = omega arith in
      rw ((drop-cons bytes a here).0, low, e, bit_or_field s item g fits) (ground arith)

read_loop-put_uvarint :
    (room x item s a : ℕ) (bytes rest : List ℕ)
    → x < 128 ^ suc room
    → s + 7 * suc room ≡ 70
    → item < 2 ^ s
    → item + x * 2 ^ s < 2 ^ 64
    → drop a bytes ≡ put_uvarint (suc room) x ++ rest
    → read_loop (suc room) bytes (some a) item s
      ≡ ok (item + x * 2 ^ s, some (a + length (put_uvarint (suc room) x)))
read_loop-put_uvarint zero x item s a bytes rest hx hs hi fits here =
    let e = put_last 0 x (omega arith) in
    rw e (read_last 0 s item a bytes rest hi x (omega arith) fits (rw e at here))
read_loop-put_uvarint (suc room) x item s a bytes rest hx hs hi fits here = elim (dec_lt x 128) [
  | yes p ↦
      let e = put_last (suc room) x p in
      rw e (read_last (suc room) s item a bytes rest hi x p fits (rw e at here))
  | no p ↦
      let e = put_more (suc room) x (omega arith) in
      let split = split_field x s in
      let round = rw e at here in
      let low : x % 128 * 2 ^ s ≤ 127 * 2 ^ s = grind arith in
      let next =
        read_loop-put_uvarint room (x / 128) (item + x % 128 * 2 ^ s) (s + 7) (a + 1) bytes rest
          (omega (arith, pow-suc 128 (suc room))) (omega arith) (omega (arith, shift_seven s))
          (omega arith) (drop-cons bytes a round).1 in
      rw
        (
          e,
          read_more (suc room) s item a bytes _ hi (x % 128) (omega arith) (omega arith)
              (omega arith) round,
          next,
        )
        (ground (arith, split_field x s))
]

-- From the place where a uint64 was written, readUvarint returns it and the address behind it.
pub read_uvarint-uvarint :
    (x a : ℕ) (bytes rest : List ℕ)
    → IsU64 x
    → drop a bytes ≡ uvarint x ++ rest
    → read_uvarint bytes (some a) ≡ ok (x, some (a + length (uvarint x)))
unfolding append_uvarint read_uvarint
read_uvarint-uvarint x a bytes rest hx here = elim (dec_lt x 128) [
  | yes p ↦
      let e : uvarint x ≡ x ∷ [] = ground arith in
      rw (e, (drop-cons bytes a (rw e at here)).0) (ground arith)
  | no p ↦
      let e : uvarint x ≡ (x % 128 + 128) ∷ put_uvarint 9 (x / 128) =
        ground (arith, put_more 9 x (omega arith)) in
      let (first, others) = drop-cons bytes a (rw e at here) in
      let low : bit_and (x % 128 + 128) 0x7f ≡ x % 128 = omega (arith, low_bits (x % 128 + 128)) in
      let loop =
        read_loop-put_uvarint 8 (x / 128) (x % 128) 7 (a + 1) bytes rest (omega arith) (omega arith)
          (omega arith) (omega arith) others in
      rw (e, first, low) (ground (arith, loop))
]

-- appendUvarint and readUvarint are inverse: behind any prefix and before any suffix, a uint64 is
-- read back, and the address moves to what follows it.
pub read_uvarint-append_uvarint :
    (x : ℕ) (front rest : List ℕ)
    → IsU64 x
    → read_uvarint (append_uvarint front x ++ rest) (some (length front))
      ≡ ok (x, some (length (append_uvarint front x)))
read_uvarint-append_uvarint x front rest hx =
    let split : append_uvarint front x ++ rest ≡ front ++ (uvarint x ++ rest) =
      rw (append_uvarint-append, append_assoc) in
    rw (split, append_uvarint-append front x, length-append)
      (read_uvarint-uvarint x (length front) _ rest hx (drop-append front _))
