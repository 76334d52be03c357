-- ===== src/Slice/Transfer.antt =====
-- Between slices, builders and cells: src/cell/slice.rs (`load_builder`, `remaining_data`,
-- `into_cell`, `overwrite_prefix`), src/cell/builder.rs (`from_slice`) and the two methods of
-- src/cell/builder_operations.rs that take a slice.
use ton_labs_types.Base.{
  ℕ, zero, suc, ◌+◌, ◌-◌, ◌*◌, ◌/◌, ◌%◌, ◌^◌, ◌&&◌, ◌||◌, List, [], ◌∷◌, ltb, leb, ◌==◌,
  if◌then◌else◌,
}
use ton_labs_types.Types.{Result, ok, err, message, fail, cell_overflow, unwrap_ok, ◌>>=◌}
use ton_labs_types.Cell.Tree.{Cell}
use ton_labs_types.Cell.Tree as Tree
use ton_labs_types.Cell.Layout.{sub_slice}
use ton_labs_types.Cell.CellType.{ordinary}
use ton_labs_types.Builder.{
  BuilderData, new, with_raw, append_raw, into_cell, with_max_depth, checked_append_reference,
  references_free,
}
use ton_labs_types.Builder.Operations.{bits_free}
use ton_labs_types.Slice.{
  SliceData, load_cell, remaining_bits, remaining_references, reference, references_from, data_at,
  is_empty, move_by,
}
use ton_labs_types.Slice.Reading.{get_bytestring}

unfoldable pub remaining_data : SliceData → Result BuilderData
remaining_data s =
    let start = s.data_start / 8 in
    let end = (s.data_end + 7) / 8 in
    let trailing = s.data_start % 8 in
    let bits = remaining_bits s in
    let bytes = Tree.data_bytes s.cell in
    if leb s.data_end s.data_start
    then ok new
    else if trailing == 0
    then unwrap_ok (with_raw (sub_slice bytes start (end - start)) bits)
    else if leb (trailing + bits) 8
    then (data_at s start >>= λ byte. unwrap_ok (with_raw (byte * 2 ^ trailing % 256 ∷ []) bits))
    else (do
      byte ← data_at s start
      builder ← unwrap_ok (with_raw (byte * 2 ^ trailing % 256 ∷ []) (8 - trailing))
      unwrap_ok (
          append_raw builder (sub_slice bytes (start + 1) (end - (start + 1)))
            (trailing + bits - 8)))

-- The references are collected first.
unfoldable pub from_slice : SliceData → Result BuilderData
from_slice s = do
  references ← references_from s 0 (remaining_references s)
  builder ← remaining_data s
  ok (record builder {
    references = references;
    cell_type = Tree.cell_type s.cell;
    level_mask = Tree.level_mask s.cell;
  })

unfoldable pub append_bytestring : BuilderData → SliceData → Result BuilderData
append_bytestring b s = do bytes ← get_bytestring s 0; append_raw b bytes (remaining_bits s)

unfoldable pub append_from : BuilderData → SliceData → ℕ → ℕ → Result BuilderData
append_from b s i zero = ok b
append_from b s i (suc left) = do
  child ← reference s i
  b' ← checked_append_reference b child
  append_from b' s (i + 1) left

unfoldable pub checked_append_references_and_data : BuilderData → SliceData → Result BuilderData
checked_append_references_and_data b s =
    if ltb (bits_free b) (remaining_bits s) || ltb (references_free b) (remaining_references s)
    then fail cell_overflow
    else (do
      bytes ← get_bytestring s 0
      b' ← append_raw b bytes (remaining_bits s)
      append_from b' s 0 (remaining_references s))

module _ (sha256 : List ℕ → List ℕ) where
  unfoldable pub load_builder : BuilderData → Result SliceData
  load_builder builder = do cell ← into_cell sha256 builder; load_cell cell

  unfoldable pub slice_into_cell : SliceData → Result Cell
  slice_into_cell s =
      if s.references_start == 0
        && s.data_start == 0
        && s.references_end == Tree.references_count s.cell
        && s.data_end == Tree.bit_length s.cell
      then ok s.cell
      else (do builder ← from_slice s; unwrap_ok (into_cell sha256 builder))

  unfoldable pub overwrite_prefix : SliceData → SliceData → Result SliceData
  overwrite_prefix s prefix =
      if is_empty prefix
      then ok s
      else if ltb (remaining_bits s) (remaining_bits prefix)
      then err message
      else (do
        builder ← from_slice prefix
        s' ← move_by s (remaining_bits prefix)
        builder' ← append_bytestring builder s'
        load_builder builder')

  -- `SliceData::default()`: no window on the cell `DataCell::new()`.
  unfoldable pub default_slice : Result SliceData
  default_slice = do
    cell ← unwrap_ok (with_max_depth sha256 [] (0x80 ∷ []) ordinary 0 0)
    ok (record {
      cell = cell;
      data_start = 0;
      data_end = 0;
      references_start = 0;
      references_end = 0;
    })
