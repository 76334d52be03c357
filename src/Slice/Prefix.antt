-- ===== src/Slice/Prefix.antt =====
-- src/cell/slice.rs: the comparison of slices, `common_prefix`, `erase_prefix`, and the reads of a
-- bit as a number.
pub mod Digits
pub mod Shared
pub mod Splits
pub mod Compare
pub mod Erase
use ton_labs_types.Base.{
  ℕ, zero, suc, ◌+◌, ◌-◌, ◌/◌, min, bit_xor, Bool, true, false, not, ◌||◌, Option, none, some, ltb,
  leb, ◌==◌, if◌then◌else◌,
}
use ton_labs_types.Types.{
  Result, ok, err, panic, exception, cell_underflow, unwrap_ok, ok_or, ◌>>=◌,
}
use ton_labs_types.Cell.Tree.{Cell}
use ton_labs_types.Cell.Tree as Tree
use ton_labs_types.Cell.Finalize.{bytes_eq}
use ton_labs_types.Slice.{
  SliceData, remaining_bits, remaining_references, is_empty, shrink_data, shrink_references,
  reference, get_bit_opt, move_by, included, excluded, unbounded,
}
use ton_labs_types.Slice.Reading.{get_bits, get_byte, significant_bits}

-- A bit as a number.
unfoldable pub to_int : Bool → ℕ
to_int bit = if bit then 1 else 0

-- A bit that was found and the slice behind it; a failed `move_by` is `None`.
unfoldable pub past_bit : Option Bool → Result SliceData → Option (SliceData × ℕ)
past_bit none moved = none
past_bit (some bit) (ok s) = some (s, to_int bit)
past_bit (some bit) (err e) = none
past_bit (some bit) panic = none

unfoldable pub get_next_bit_opt : SliceData → Result (Option (SliceData × ℕ))
get_next_bit_opt s = do found ← get_bit_opt s 0; ok (past_bit found (move_by s 1))

unfoldable pub get_next_bit_int : SliceData → Result (SliceData × ℕ)
get_next_bit_int s = do found ← get_next_bit_opt s; ok_or found (exception cell_underflow)

-- `Cell::eq`: the hashes are compared.
unfoldable pub same_cell : Cell → Cell → Result Bool
same_cell a b = do hash ← Tree.repr_hash a; hash' ← Tree.repr_hash b; ok (bytes_eq hash hash')

-- The first of the loops of `eq`: the offset behind the whole bytes, or `none` at a difference.
unfoldable pub same_bytes : ℕ → SliceData → SliceData → ℕ → ℕ → Result (Option ℕ)
same_bytes zero s slice bit_len offset = panic
same_bytes (suc fuel) s slice bit_len offset =
    let rest = same_bytes fuel s slice bit_len (offset + 8) in
    if leb (offset + 8) bit_len
    then (do
      x ← unwrap_ok (get_byte s offset)
      y ← unwrap_ok (get_byte slice offset)
      if x == y then rest else ok none)
    else ok (some offset)

unfoldable pub same_references : SliceData → SliceData → ℕ → ℕ → Result Bool
same_references s slice i zero = ok true
same_references s slice i (suc left) = do
  child ← unwrap_ok (reference s i)
  child' ← unwrap_ok (reference slice i)
  same ← same_cell child child'
  let rest = same_references s slice (i + 1) left
  if same then rest else ok false

-- Behind the loop: the bits that are left, and the references.
unfoldable pub same_tail : SliceData → SliceData → ℕ → ℕ → Option ℕ → Result Bool
same_tail s slice bit_len refs_count none = ok false
same_tail s slice bit_len refs_count (some offset) =
    if ltb offset bit_len
    then (do
      x ← unwrap_ok (get_bits s offset (bit_len - offset))
      y ← unwrap_ok (get_bits slice offset (bit_len - offset))
      if x == y then same_references s slice 0 refs_count else ok false)
    else same_references s slice 0 refs_count

-- `SliceData::eq`
unfoldable pub same_slice : SliceData → SliceData → Result Bool
same_slice s slice =
    let refs_count = remaining_references s in
    let bit_len = remaining_bits s in
    if not (bit_len == remaining_bits slice) || not (refs_count == remaining_references slice)
    then ok false
    else (same_bytes (bit_len / 8 + 1) s slice bit_len 0 >>= same_tail s slice bit_len refs_count)

-- The loop of `common_prefix`: it stops at the first byte that differs, or short of a whole byte.
-- Each round takes eight bits, so a round more than there are bytes is enough.
unfoldable pub shared_bytes : ℕ → SliceData → SliceData → ℕ → ℕ → Result ℕ
shared_bytes zero a b longest offset = panic
shared_bytes (suc fuel) a b longest offset =
    let rest = shared_bytes fuel a b longest (offset + 8) in
    if leb (offset + 8) longest
    then (do
      x ← unwrap_ok (get_byte a offset)
      y ← unwrap_ok (get_byte b offset)
      if x == y then rest else ok offset)
    else ok offset

-- `diff.leading_zeros()` on a `u8`
unfoldable pub leading_zeros : ℕ → ℕ
leading_zeros diff = 8 - significant_bits 8 diff

-- The number of equal bits from `offset` on, at most eight of them.
unfoldable pub shared_bits : SliceData → SliceData → ℕ → ℕ → Result ℕ
shared_bits a b longest offset =
    let last_bits_len = min (longest - offset) 8 in
    (do
      a_bits ← unwrap_ok (get_bits a offset last_bits_len)
      b_bits ← unwrap_ok (get_bits b offset last_bits_len)
      ok (min (leading_zeros (bit_xor a_bits b_bits) - (8 - last_bits_len)) last_bits_len))

-- `if slice.remaining_bits() > 0 { Some(slice) } else { None }`
unfoldable pub nonempty : SliceData → Option SliceData
nonempty s = if ltb 0 (remaining_bits s) then some s else none

-- The front of `a` without references, and what is left of `a` and of `b`.
unfoldable pub split_at_prefix :
    SliceData
    → SliceData
    → SliceData
    → ℕ
    → Result (Option SliceData × Option SliceData × Option SliceData)
split_at_prefix prefix a b end = do
  (prefix', _refs) ← shrink_references prefix (included 0) (excluded 0)
  ok (
    nonempty prefix',
    nonempty (shrink_data a (included end) unbounded).0,
    nonempty (shrink_data b (included end) unbounded).0,
  )

unfoldable pub common_prefix :
    SliceData → SliceData → Result (Option SliceData × Option SliceData × Option SliceData)
common_prefix a b =
    let longest = min (remaining_bits a) (remaining_bits b) in
    (do
      offset ← shared_bytes (longest / 8 + 1) a b longest 0
      if leb longest offset
          then split_at_prefix (if ltb (remaining_bits a) (remaining_bits b) then a else b) a b
              longest
          else (do
            diff ← shared_bits a b longest offset
            split_at_prefix (shrink_data a unbounded (excluded (offset + diff))).0 a b
                (offset + diff)))

-- What `erase_prefix` makes of what `common_prefix` left of the slice and of the prefix.
unfoldable pub erased_to : SliceData → Option SliceData → Option SliceData → SliceData × Bool
erased_to s rem_s (some _) = (s, false)
erased_to s (some remainder) none = (remainder, true)
erased_to s none none = ((shrink_data s (included 0) (excluded 0)).0, true)

-- The slice that `erase_prefix` leaves, and whether the prefix was there.
unfoldable pub erase_prefix : SliceData → SliceData → Result (SliceData × Bool)
erase_prefix s prefix =
    if is_empty s || ltb (remaining_bits s) (remaining_bits prefix)
    then ok (s, false)
    else if is_empty prefix
    then ok (s, true)
    else (do
      same ← same_slice s prefix
      if same then ok ((shrink_data s (included 0) (excluded 0)).0, true) else (do
        (_prefix, rem_s, rem_prefix) ← common_prefix s prefix
        ok (erased_to s rem_s rem_prefix)))
