-- ===== src/Builder.antt =====
-- src/cell/builder.rs: `BuilderData`, the bits and references of a cell under construction. A
-- method with `&mut self` returns the new builder, or an error: the appends fail before they
-- change anything. `reserve_exact` and the debug assertions are not modelled.
pub mod Operations
pub mod Spec
pub mod Cut
pub mod Shift
pub mod Append
pub mod IntoCell
pub mod RoundTrip
use ton_labs_types.Base.{
  ℕ, ◌+◌, ◌-◌, ◌*◌, ◌/◌, ◌%◌, ◌^◌, min, bit_or, Bool, false, ◌&&◌, List, [], ◌∷◌, ◌++◌, none, ltb,
  leb, ◌==◌, if◌then◌else◌, length, take, set, pop, map_last,
}
use ton_labs_types.Types.{
  Result, ok, fail, fatal_error, cell_overflow, assert, unwrap, unwrap_ok, ◌>>=◌,
}
use ton_labs_types.Tag.{find_tag, append_tag}
use ton_labs_types.Cell.LevelMask.{LevelMask, with_mask, bitor_assign}
use ton_labs_types.Cell.LevelMask as Mask
use ton_labs_types.Cell.CellType.{CellType, ordinary, is_ordinary}
use ton_labs_types.Cell.Layout.{max_data_bits, max_references_count, max_safe_depth}
use ton_labs_types.Cell.Data as Data
use ton_labs_types.Cell.Tree.{Cell}
use ton_labs_types.Cell.Tree as Tree
use ton_labs_types.Cell.Finalize.{construct_cell}

pub record BuilderData : Type 0 where
  pub bytes : List ℕ
  pub length_in_bits : ℕ
  pub references : List Cell
  pub cell_type : CellType
  pub level_mask : LevelMask

abbrev pub new : BuilderData
new = record {
  bytes = [];
  length_in_bits = 0;
  references = [];
  cell_type = ordinary;
  level_mask = 0;
}

-- `(b >> k) << k` on a `u8`
unfoldable pub clear_low : ℕ → ℕ → ℕ
clear_low k b = b / 2 ^ k * 2 ^ k % 256

-- The bytes that hold `length_in_bits` bits, with zeros behind them.
unfoldable pub cut_bytes : List ℕ → ℕ → List ℕ
cut_bytes bytes length_in_bits =
    let data_shift = length_in_bits % 8 in
    if data_shift == 0
    then take (length_in_bits / 8) bytes
    else map_last (clear_low (8 - data_shift)) (take (1 + length_in_bits / 8) bytes)

unfoldable pub with_raw : List ℕ → ℕ → Result BuilderData
unfolding cut_bytes with_mask
with_raw bytes length_in_bits =
    if ltb (length bytes * 8) length_in_bits
    then fail fatal_error
    else if ltb max_data_bits length_in_bits
    then fail cell_overflow
    else ok (record {
      bytes = cut_bytes bytes length_in_bits;
      length_in_bits = length_in_bits;
      references = [];
      cell_type = ordinary;
      level_mask = with_mask 0;
    })

unfoldable pub with_bitstring : List ℕ → Result BuilderData
unfolding find_tag with_raw
with_bitstring bytes =
    let length_in_bits = find_tag bytes in
    if length_in_bits == 0
    then ok new
    else if ltb (length bytes * 8) length_in_bits
    then fail fatal_error
    else if ltb max_data_bits length_in_bits
    then fail cell_overflow
    else with_raw bytes length_in_bits

unfoldable pub references_free : BuilderData → ℕ
references_free b = max_references_count - length b.references

unfoldable pub checked_append_reference : BuilderData → Cell → Result BuilderData
unfolding references_free
checked_append_reference b cell =
    if references_free b == 0
    then fail cell_overflow
    else ok (record b { references = b.references ++ (cell ∷ []) })

unfoldable pub checked_prepend_reference : BuilderData → Cell → Result BuilderData
unfolding references_free
checked_prepend_reference b cell =
    if references_free b == 0
    then fail cell_overflow
    else ok (record b { references = cell ∷ b.references })

unfoldable pub append_all_references : BuilderData → List Cell → Result BuilderData
unfolding checked_append_reference
append_all_references b [] = ok b
append_all_references b (c ∷ cs) = do b' ← checked_append_reference b c; append_all_references b' cs

unfoldable pub with_raw_and_refs : List ℕ → ℕ → List Cell → Result BuilderData
unfolding with_raw append_all_references
with_raw_and_refs bytes length_in_bits refs = do
  builder ← with_raw bytes length_in_bits
  append_all_references builder refs

-- `append_without_shifting`: both lengths are whole bytes.
unfoldable pub without_shifting : BuilderData → List ℕ → ℕ → BuilderData
without_shifting b slice bits = record b {
  bytes = take ((b.length_in_bits + bits) / 8) (take (b.length_in_bits / 8) b.bytes ++ slice);
  length_in_bits = b.length_in_bits + bits;
}

-- `append_with_slice_shifting`: the builder ends at a byte boundary and the new bits do not.
unfoldable pub with_slice_shifting : BuilderData → List ℕ → ℕ → Result BuilderData
with_slice_shifting b slice bits = do
  let total = b.length_in_bits + bits
  (rest, last_byte) ←
      unwrap (pop (take (1 + total / 8) (take (b.length_in_bits / 8) b.bytes ++ slice)))
  ok (record b {
    bytes = rest ++ (clear_low (8 - bits % 8) last_byte ∷ []);
    length_in_bits = total;
  })

-- The loop over the slice: `y` is the `u16` that carries bits to the next byte.
unfoldable pub shifted_bytes : ℕ → ℕ → List ℕ → List ℕ
shifted_bytes self_shift y [] = (y * 2 ^ (8 - self_shift) % 2 ^ 16 % 256) ∷ []
shifted_bytes self_shift y (x ∷ xs) =
    let y' = bit_or (y * 2 ^ 8 % 2 ^ 16) x in
    (y' / 2 ^ self_shift % 256) ∷ shifted_bytes self_shift y' xs

-- What follows the loop: the end of the last byte is cleared.
unfoldable pub trimmed : List ℕ → ℕ → Result (List ℕ)
trimmed bytes total =
    let shift = total % 8 in
    if shift == 0 then ok (take (total / 8) bytes) else (do
      (rest, last_byte) ← unwrap (pop (take (total / 8 + 1) bytes))
      ok (rest ++ (clear_low (8 - shift) last_byte ∷ [])))

-- `append_with_double_shifting`: the builder ends within a byte.
unfoldable pub with_double_shifting : BuilderData → List ℕ → ℕ → Result BuilderData
with_double_shifting b slice bits = do
  let self_shift = b.length_in_bits % 8
  let total = b.length_in_bits + bits
  (rest, last) ← unwrap (pop (take (1 + b.length_in_bits / 8) b.bytes))
  bytes ← trimmed (rest ++ shifted_bytes self_shift (last / 2 ^ (8 - self_shift)) slice) total
  ok (record b { bytes = bytes; length_in_bits = total })

-- The two assertions at the end of `append_raw`.
unfoldable pub checked : BuilderData → Result BuilderData
checked b =
    assert (leb b.length_in_bits max_data_bits)
      (assert (leb (length b.bytes * 8) (max_data_bits + 1)) (ok b))

unfoldable pub append_shifting : BuilderData → List ℕ → ℕ → Result BuilderData
append_shifting b slice bits =
    if bits == 0
    then ok b
    else if b.length_in_bits % 8 == 0
    then (if bits % 8 == 0
        then ok (without_shifting b slice bits)
        else with_slice_shifting b slice bits)
    else with_double_shifting b slice bits

unfoldable pub append_raw : BuilderData → List ℕ → ℕ → Result BuilderData
append_raw b slice bits =
    if ltb (length slice * 8) bits
    then fail fatal_error
    else if ltb max_data_bits (b.length_in_bits + bits)
    then fail cell_overflow
    else (do b' ← append_shifting b slice bits; checked b')

unfoldable pub prepend_raw : BuilderData → List ℕ → ℕ → Result BuilderData
prepend_raw b slice bits = if bits == 0 then ok b else (do
  start ← with_raw slice bits
  buffer ← append_raw start b.bytes b.length_in_bits
  ok (record b { length_in_bits = buffer.length_in_bits; bytes = buffer.bytes }))

-- The data is kept as it is, past the new length too.
unfoldable pub replace_data : BuilderData → List ℕ → ℕ → BuilderData
replace_data b bytes length_in_bits = record b {
  length_in_bits = min (min length_in_bits max_data_bits) (length bytes * 8);
  bytes = bytes;
}

-- A missing index is only logged.
unfoldable pub replace_reference_cell : BuilderData → ℕ → Cell → BuilderData
replace_reference_cell b index child = record b { references = set b.references index child }

unfoldable pub set_type : BuilderData → CellType → BuilderData
set_type b cell_type = record b { cell_type = cell_type }

unfoldable pub set_level_mask : BuilderData → LevelMask → BuilderData
set_level_mask b mask = record b { level_mask = mask }

unfoldable pub is_empty : BuilderData → Bool
is_empty b = b.length_in_bits == 0 && length b.references == 0

-- `trunc` keeps the byte behind the cut.
unfoldable pub trunc : BuilderData → ℕ → Result BuilderData
trunc b length_in_bits =
    if ltb b.length_in_bits length_in_bits
    then fail fatal_error
    else ok (record b {
      length_in_bits = length_in_bits;
      bytes = take (1 + length_in_bits / 8) b.bytes;
    })

unfoldable pub from_cell : Cell → Result BuilderData
unfolding with_raw Tree.data_bytes Tree.bit_length Tree.clone_references Tree.cell_type
    Tree.level_mask
from_cell cell = do
  builder ← unwrap_ok (with_raw (Tree.data_bytes cell) (Tree.bit_length cell))
  refs ← Tree.clone_references cell
  ok (record builder {
    references = refs;
    cell_type = Tree.cell_type cell;
    level_mask = Tree.level_mask cell;
  })

unfoldable pub or_masks : LevelMask → List Cell → LevelMask
unfolding bitor_assign Tree.level_mask
or_masks mask [] = mask
or_masks mask (r ∷ refs) = or_masks (bitor_assign mask (Tree.level_mask r)) refs

-- The level mask with which the cell is made: computed for an ordinary cell, else set before.
unfoldable pub final_mask : BuilderData → LevelMask
unfolding or_masks
final_mask b = if is_ordinary b.cell_type then or_masks b.level_mask b.references else b.level_mask

module _ (sha256 : List ℕ → List ℕ) where
  -- `DataCell::with_max_depth`
  unfoldable pub with_max_depth : List Cell → List ℕ → CellType → ℕ → ℕ → Result Cell
  with_max_depth references bytes cell_type level_mask max_depth = do
    cell_data ←
        Data.with_params cell_type bytes level_mask (length references % 256) false none none
    construct_cell sha256 max_depth references cell_data

  unfoldable pub finalize : BuilderData → ℕ → Result Cell
  finalize b max_depth =
      with_max_depth b.references (append_tag b.bytes b.length_in_bits) b.cell_type (final_mask b)
        max_depth

  unfoldable pub into_cell : BuilderData → Result Cell
  into_cell b = finalize b max_safe_depth
