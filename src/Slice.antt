-- ===== src/Slice.antt =====
-- src/cell/slice.rs: `SliceData`, a window on the bits and the references of a cell. A method with
-- `&mut self` returns its value with the new slice; on an error the slice, which some methods have
-- changed before they fail, is not kept. An index out of the cell's data panics. The traits for
-- formatting and hashing are not modelled.
pub mod Reading
pub mod Transfer
pub mod Spec
pub mod Bits
pub mod Window
pub mod Gather
pub mod Integers
pub mod RoundTrip
pub mod ReadBack
pub mod Remaining
pub mod Load
pub mod Bytes
pub mod SingleBit
pub mod Whole
pub mod Overwrite
pub mod Trim
pub mod Prefix
use ton_labs_types.Base.{
  ℕ, zero, suc, ◌+◌, ◌-◌, ◌/◌, ◌%◌, ◌^◌, Bool, true, not, ◌&&◌, List, [], ◌∷◌, ◌++◌, Option, none,
  some, ltb, leb, ◌==◌, if◌then◌else◌, get_elem?,
}
use ton_labs_types.Types.{
  Result, ok, exception, fail, cell_underflow, pruned_cell_access, unwrap, unwrap_ok, ok_or, ◌>>=◌,
}
use ton_labs_types.Cell.Tree.{Cell}
use ton_labs_types.Cell.Tree as Tree

pub record SliceData : Type 0 where
  pub cell : Cell
  pub data_start : ℕ
  pub data_end : ℕ
  pub references_start : ℕ
  pub references_end : ℕ

unfoldable pub load_cell : Cell → Result SliceData
unfolding Tree.is_pruned Tree.bit_length Tree.references_count
load_cell cell =
    if Tree.is_pruned cell
    then fail pruned_cell_access
    else ok (record {
      cell = cell;
      data_start = 0;
      data_end = Tree.bit_length cell;
      references_start = 0;
      references_end = Tree.references_count cell;
    })

unfoldable pub remaining_references : SliceData → ℕ
remaining_references s =
    if ltb s.references_end s.references_start then 0 else s.references_end - s.references_start

unfoldable pub remaining_bits : SliceData → ℕ
remaining_bits s = if ltb s.data_end s.data_start then 0 else s.data_end - s.data_start

pub data Bound : Type 0 where
  included : ℕ → Bound
  excluded : ℕ → Bound
  unbounded : Bound

unfoldable pub start_bound : Bound → ℕ
start_bound (included start) = start
start_bound (excluded start) = start + 1
start_bound unbounded = 0

unfoldable pub end_bound : Bound → ℕ → ℕ
end_bound (included end) len = end + 1
end_bound (excluded end) len = end
end_bound unbounded len = len

-- The slice that `shrink_data` leaves in place, and the one it returns: the prefix or the suffix
-- that is cut off, where `none` stands for `SliceData::default()`.
unfoldable pub shrink_data : SliceData → Bound → Bound → SliceData × Option SliceData
unfolding start_bound end_bound
shrink_data s from to =
    let data_len = remaining_bits s in
    let start = start_bound from in
    let end = end_bound to data_len in
    if leb start end && leb end data_len
    then (
      record s { data_end = s.data_start + end; data_start = s.data_start + start },
      some (
          if not (start == 0)
          then record s { data_end = s.data_start + start }
          else record s { data_start = s.data_start + end }),
    )
    else (s, none)

unfoldable pub reference : SliceData → ℕ → Result Cell
unfolding Tree.reference
reference s i =
    if ltb (s.references_start + i) s.references_end
    then Tree.reference s.cell (s.references_start + i)
    else fail cell_underflow

-- `ok` of `reference` is `Some`, and both errors are `None`.
unfoldable pub reference_opt : SliceData → ℕ → Option Cell
unfolding Tree.reference
reference_opt s i =
    if ltb (s.references_start + i) s.references_end
    then elim (Tree.reference s.cell (s.references_start + i)) [ ok c ↦ some c | _ ↦ none ]
    else none

-- The references from `i` on, `left` of them, each with an `unwrap`.
unfoldable pub references_from : SliceData → ℕ → ℕ → Result (List Cell)
unfolding reference
references_from s i zero = ok []
references_from s i (suc left) = do
  child ← unwrap_ok (reference s i)
  rest ← references_from s (i + 1) left
  ok (child ∷ rest)

unfoldable pub shrink_references : SliceData → Bound → Bound → Result (SliceData × List Cell)
unfolding start_bound end_bound
shrink_references s from to =
    let refs_count = remaining_references s in
    let start = start_bound from in
    let end = end_bound to refs_count in
    if leb start end && leb end refs_count
    then (do
      before ← references_from s 0 start
      after ← references_from s end (refs_count - end)
      ok (
        record s {
          references_end = s.references_start + end;
          references_start = s.references_start + start;
        },
        before ++ after,
      ))
    else ok (s, [])

unfoldable pub shrink_by_remainder : SliceData → SliceData → SliceData
shrink_by_remainder s other = record s {
  data_end = if leb s.data_start other.data_start then other.data_start else s.data_end;
  references_end =
      if leb s.references_start other.references_start
      then other.references_start
      else s.references_end;
}

-- It moves the window first; a missing reference then panics.
unfoldable pub checked_drain_reference : SliceData → Result (SliceData × Cell)
unfolding remaining_references Tree.reference
checked_drain_reference s =
    if not (remaining_references s == 0)
    then (do
      child ← unwrap_ok (Tree.reference s.cell s.references_start)
      ok (record s { references_start = s.references_start + 1 }, child))
    else fail cell_underflow

unfoldable pub undrain_reference : SliceData → SliceData
undrain_reference s =
    if ltb 0 s.references_start then record s { references_start = s.references_start - 1 } else s

-- `self.cell.data()[q]`
unfoldable pub data_at : SliceData → ℕ → Result ℕ
unfolding Tree.data_bytes
data_at s q = unwrap (get_elem? (Tree.data_bytes s.cell) q)

-- A panic apart, `none` is `None`.
unfoldable pub get_bit_opt : SliceData → ℕ → Result (Option Bool)
unfolding remaining_bits data_at
get_bit_opt s offset = if leb (remaining_bits s) offset then ok none else (do
  let index = s.data_start + offset
  byte ← data_at s (index / 8)
  ok (some (not (byte / 2 ^ (7 - index % 8) % 2 == 0))))

unfoldable pub get_bit : SliceData → ℕ → Result Bool
unfolding get_bit_opt
get_bit s offset = do bit ← get_bit_opt s offset; ok_or bit (exception cell_underflow)

unfoldable pub move_by : SliceData → ℕ → Result SliceData
move_by s offset =
    if leb (s.data_start + offset) s.data_end
    then ok (record s { data_start = s.data_start + offset })
    else fail cell_underflow

unfoldable pub get_slice : SliceData → ℕ → ℕ → Result SliceData
get_slice s offset size =
    if ltb (remaining_bits s) (offset + size) then fail cell_underflow else (do
      let (slice, _cut) = shrink_data s (included offset) (excluded (offset + size))
      (slice', _refs) ← shrink_references slice unbounded (excluded 0)
      ok slice')

unfoldable pub get_next_slice : SliceData → ℕ → Result (SliceData × SliceData)
get_next_slice s size = do
  slice ← get_slice s 0 size
  let (s', _cut) = shrink_data s (included size) unbounded
  ok (s', slice)

unfoldable pub is_empty : SliceData → Bool
is_empty s = leb s.data_end s.data_start

-- The loop of `trim_right`: from the last bit down to the first one that is set.
unfoldable pub trim_from : SliceData → ℕ → Result SliceData
unfolding get_bit_opt
trim_from s zero = ok s
trim_from s (suc offset) = do
  bit ← get_bit_opt s offset
  let rest = trim_from s offset
  elim bit [ some true ↦ ok (record s { data_end = s.data_start + offset }) | _ ↦ rest ]

unfoldable pub trim_right : SliceData → Result SliceData
unfolding remaining_bits
trim_right s = trim_from s (remaining_bits s)

unfoldable pub is_full_cell_slice : SliceData → Bool
unfolding Tree.bit_length Tree.references_count remaining_references
is_full_cell_slice s =
    s.data_start == 0
    && s.data_end == Tree.bit_length s.cell
    && remaining_references s == Tree.references_count s.cell
