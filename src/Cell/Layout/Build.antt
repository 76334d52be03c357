-- ===== src/Cell/Layout/Build.antt =====
-- src/cell/mod.rs: the packed form written, overwritten and checked.
use ton_labs_types.Base.{
  ℕ, ◌+◌, ◌*◌, ◌/◌, ◌%◌, ◌^◌, Bool, true, false, not, ◌&&◌, List, [], ◌∷◌, ◌++◌, Option, none, some,
  ltb, ◌==◌, if◌then◌else◌, length, take, drop,
}
use ton_labs_types.Types.{Result, ok, err, message}
use ton_labs_types.Tag.{find_tag}
use ton_labs_types.Cell.LevelMask.{with_mask}
use ton_labs_types.Cell.LevelMask as Mask
use ton_labs_types.Cell.CellType.{CellType, is_ordinary, is_pruned_branch}
use ton_labs_types.Cell.Layout.{
  sha256_size, max_references_count, max_data_bytes, max_level_mask, depth_size, flag, calc_d1,
  calc_d2, absent, refs_count, full_len, exotic, cell_data, depths_offset,
}

-- The two bytes of a `u16`, the high one first.
abbrev pub be_u16 : ℕ → List ℕ
be_u16 n = (n / 2 ^ 8 % 256) ∷ (n % 256) ∷ []

abbrev pub concat : List (List ℕ) → List ℕ
concat [] = []
concat (x ∷ xs) = x ++ concat xs

abbrev pub concat_depths : List ℕ → List ℕ
concat_depths [] = []
concat_depths (d ∷ ds) = be_u16 d ++ concat_depths ds

-- Bytes of data without the tag: `data_len`.
abbrev pub bytes_for : ℕ → ℕ
bytes_for bits = bits / 8 + flag (not (bits % 8 == 0))

unfoldable pub stored_count : CellType → ℕ → ℕ
unfolding Mask.level with_mask
stored_count cell_type level_mask =
    if is_pruned_branch cell_type then 1 else Mask.level (with_mask level_mask) + 1

-- The zeroed buffer is filled from left to right, so it is the concatenation of what is copied.
unfoldable pub filled : CellType → List ℕ → ℕ → ℕ → Bool → List ℕ → List ℕ
unfolding calc_d1 calc_d2 find_tag with_mask
filled cell_type bytes level_mask refs store_hashes stored =
    let data_bit_len = find_tag bytes in
    calc_d1 (with_mask level_mask) store_hashes cell_type refs
    ∷ calc_d2 data_bit_len
    ∷ (stored ++ take (bytes_for data_bit_len) bytes)

stored_part : ℕ → Option (List (List ℕ)) → Option (List ℕ) → Option (List ℕ)
stored_part count (some hashes) (some depths) =
    some (concat (take count hashes) ++ concat_depths (take count depths))
stored_part count _ _ = none

with_stored : CellType → List ℕ → ℕ → ℕ → Option (List ℕ) → Result (List ℕ)
unfolding filled
with_stored cell_type bytes level_mask refs none = err message
with_stored cell_type bytes level_mask refs (some stored) =
    ok (filled cell_type bytes level_mask refs true stored)

-- `bytes` is the data with its completion tag.
unfoldable pub build_cell_buf :
    CellType → List ℕ → ℕ → ℕ → Bool → Option (List (List ℕ)) → Option (List ℕ) → Result (List ℕ)
unfolding stored_count filled stored_part with_stored
build_cell_buf cell_type bytes level_mask refs store_hashes hashes depths =
    if not (is_ordinary cell_type) && (length bytes == 1)
    then err message
    else if ltb max_data_bytes (length bytes)
    then err message
    else if ltb max_references_count refs
    then err message
    else if ltb max_level_mask level_mask
    then err message
    else if store_hashes
    then with_stored cell_type bytes level_mask refs
        (stored_part (stored_count cell_type level_mask) hashes depths)
    else ok (filled cell_type bytes level_mask refs false [])

-- `buf[offset..offset + bytes.len()].copy_from_slice(bytes)`
abbrev pub write_at : List ℕ → ℕ → List ℕ → List ℕ
write_at buf offset bytes = take offset buf ++ (bytes ++ drop (offset + length bytes) buf)

unfoldable pub set_hash : List ℕ → ℕ → List ℕ → List ℕ
set_hash buf index hash = write_at buf (2 + index * sha256_size) hash

unfoldable pub set_depth : List ℕ → ℕ → ℕ → List ℕ
unfolding depths_offset
set_depth buf index depth = write_at buf (depths_offset buf + index * depth_size) (be_u16 depth)

is_empty : List ℕ → Bool
is_empty [] = true
is_empty (x ∷ xs) = false

-- The differences that the source only logs are not errors.
unfoldable pub check_cell_buf : List ℕ → Bool → Result (Unit {0})
unfolding absent refs_count full_len exotic cell_data is_empty
check_cell_buf buf unbounded =
    if ltb (length buf) 2
    then err message
    else if absent buf
    then (if ltb (length buf) (full_len buf)
        then err message
        else if not unbounded && ltb (full_len buf) (length buf)
        then err message
        else ok tt)
    else if ltb max_references_count (refs_count buf)
    then err message
    else if ltb (length buf) (full_len buf)
    then err message
    else if exotic buf && is_empty (cell_data buf)
    then err message
    else ok tt
