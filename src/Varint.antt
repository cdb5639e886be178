-- ===== src/Varint.antt =====
-- appendUvarint and readUvarint of qtree.go, with PutUvarint of Go's encoding/binary. A byte slice
-- is a list of numbers, and a uint64 is a number below 2 ^ 64.
mod Bits
pub mod RoundTrip
use Prim.Native.Nat.{bit_and, bit_or}
use geometry.Prelude.{
  ℕ, zero, suc, ◌+◌, ◌*◌, ◌/◌, ◌%◌, ◌^◌, ◌<◌, Option, none, some, List, [], ◌∷◌, ◌++◌,
}
use geometry.Prelude.Tests.{ltb, ◌==◌, if◌then◌else◌}
use geometry.Prelude.Lists.{get_elem?}
use geometry.Prelude.Run.{Run, ok, panic, out_of_fuel, ◌>>=◌, or_panic}

abbrev pub IsU64 : ℕ → Type 0
IsU64 x = x < 2 ^ 64

-- binary.PutUvarint into a buffer with this much room; ten bytes are enough for a uint64.
unfoldable pub put_uvarint : ℕ → ℕ → List ℕ
put_uvarint zero x = []
put_uvarint (suc room) x =
    let rest = put_uvarint room (x / 2 ^ 7) in
    if ltb x 0x80 then x % 256 ∷ [] else bit_or (x % 256) 0x80 ∷ rest

unfoldable pub append_uvarint : List ℕ → ℕ → List ℕ
append_uvarint dst x = if ltb x 0x80 then dst ++ (x % 256 ∷ []) else dst ++ put_uvarint 10 x

-- An address in the index, where `none` is the -1 of a number that is too long.
abbrev pub Addr : Type 0
Addr = Option ℕ

abbrev pub forward : Addr → ℕ → Addr
forward none n = none
forward (some a) n = some (a + n)

-- data[addr]
abbrev pub byte_at : List ℕ → Addr → Run ℕ
byte_at bytes none = panic
byte_at bytes (some a) = or_panic (get_elem? bytes a)

-- from the label `loop` on; s is 7, 14, …, so nine rounds are enough
unfoldable pub read_loop : ℕ → List ℕ → Addr → ℕ → ℕ → Run (ℕ × Addr)
read_loop zero bytes addr item s = out_of_fuel
read_loop (suc fuel) bytes addr item s = do
  b ← byte_at bytes addr
  let next = forward addr 1
  let rest = read_loop fuel bytes next (bit_or item (bit_and b 0x7f * 2 ^ s % 2 ^ 64)) (s + 7)
  if ltb b 0x80
      then ok (bit_or item (b * 2 ^ s % 2 ^ 64), next)
      else if s + 7 == 70
      then ok (0, none)
      else rest

unfoldable pub read_uvarint : List ℕ → Addr → Run (ℕ × Addr)
read_uvarint bytes addr = do
  item ← byte_at bytes addr
  if ltb item 0x80
      then ok (item, forward addr 1)
      else read_loop 9 bytes (forward addr 1) (bit_and item 0x7f) 7
