-- ===== src/Tag.antt =====
-- src/cell/mod.rs: `find_tag` and `append_tag`. The completion tag of a bit string is a one and
-- then zeros up to a byte boundary.
pub mod Find
pub mod RoundTrip
use ton_labs_types.Base.{
  ℕ, zero, suc, ◌+◌, ◌-◌, ◌*◌, ◌/◌, ◌%◌, ◌^◌, bit_and, bit_or, Bool, true, false, List, [], ◌∷◌,
  ◌++◌, ◌||◌, ◌==◌, if◌then◌else◌, length, take, map_last,
}
use mathlib.Core.List.{reverse}

-- `while (*x & mask) == 0 { skip += 1; mask <<= 1 }` on a `u8`; eight rounds are enough for a
-- byte that is not zero.
tag_skip : ℕ → ℕ → ℕ → ℕ → ℕ
tag_skip zero x skip mask = skip
tag_skip (suc fuel) x skip mask =
    let rest = tag_skip fuel x (skip + 1) (mask * 2 % 256) in
    if bit_and x mask == 0 then rest else skip

-- The loop of `find_tag` over the bytes from the last one.
find_tag_loop : ℕ → List ℕ → ℕ
find_tag_loop len [] = len
find_tag_loop len (x ∷ xs) =
    let rest = find_tag_loop (len - 8) xs in if x == 0 then rest else len - tag_skip 8 x 1 1

unfoldable pub find_tag : List ℕ → ℕ
unfolding find_tag_loop tag_skip
find_tag bitstring = find_tag_loop (length bitstring * 8) (reverse bitstring)

is_empty : List ℕ → Bool
is_empty [] = true
is_empty (x ∷ xs) = false

-- What `append_tag` does to the last byte, for a `shift` that is not 0.
tag_byte : ℕ → ℕ → ℕ
tag_byte shift last =
    if shift == 7 then bit_or last 1 else bit_or (last / 2 ^ (7 - shift)) 1 * 2 ^ (7 - shift) % 256

-- Where the data is not empty it keeps a byte after `truncate`, so `pop` finds one.
unfoldable pub append_tag : List ℕ → ℕ → List ℕ
unfolding is_empty tag_byte
append_tag bytes bits =
    let shift = bits % 8 in
    if shift == 0 || is_empty bytes
    then take (bits / 8) bytes ++ (0x80 ∷ [])
    else map_last (tag_byte shift) (take (1 + bits / 8) bytes)
