-- ===== src/Cell/Layout.antt =====
-- src/cell/mod.rs: the packed form of a cell,
--   [d1] [d2] (hashes) (depths) [data]
-- where d1 holds the level mask, two flags and the number of references, and d2 the data's size.
-- A read past the end panics in the source and is 0 here, a slice is cut short; `check_cell_buf`
-- comes before every use of a buffer from outside.
pub mod Build
pub mod Fields
pub mod Packed
use ton_labs_types.Base.{
  ℕ, ◌+◌, ◌*◌, ◌/◌, ◌%◌, ◌^◌, bit_and, bit_or, Bool, true, false, not, List, [], ◌∷◌, ◌==◌,
  if◌then◌else◌, get_or, take, drop,
}
use ton_labs_types.Types.{Result, ok}
use ton_labs_types.Tag.{find_tag}
use ton_labs_types.Cell.LevelMask.{LevelMask, with_mask}
use ton_labs_types.Cell.LevelMask as Mask
use ton_labs_types.Cell.CellType.{CellType, try_from, is_ordinary, is_pruned_branch}
use ton_labs_types.Cell.CellType.{
  ordinary, merkle_proof, merkle_update, library_reference, pruned_branch, unknown,
}

abbrev pub sha256_size : ℕ
sha256_size = 32

abbrev pub depth_size : ℕ
depth_size = 2

abbrev pub max_references_count : ℕ
max_references_count = 4

abbrev pub max_data_bits : ℕ
max_data_bits = 1023

abbrev pub max_data_bytes : ℕ
max_data_bytes = 128

abbrev pub max_level : ℕ
max_level = 3

abbrev pub max_level_mask : ℕ
max_level_mask = 7

-- u16::MAX - 1
abbrev pub max_depth_limit : ℕ
max_depth_limit = 65534

abbrev pub max_safe_depth : ℕ
max_safe_depth = 2048

-- A Boolean `as` a number.
abbrev pub flag : Bool → ℕ
flag true = 1
flag false = 0

unfoldable pub calc_d1 : LevelMask → Bool → CellType → ℕ → ℕ
calc_d1 level_mask store_hashes cell_type refs_count =
    bit_or
      (bit_or (bit_or (level_mask * 2 ^ 5 % 256) (flag store_hashes * 16))
        (flag (not (is_ordinary cell_type)) * 8))
      (refs_count % 256)

unfoldable pub calc_d2 : ℕ → ℕ
calc_d2 data_bit_len = data_bit_len / 8 * 2 % 256 + flag (not (data_bit_len % 8 == 0))

-- `buf[i]`
abbrev pub byte_at : List ℕ → ℕ → ℕ
byte_at buf i = get_or buf i 0

-- `buf[from..from + len]`
abbrev pub sub_slice : List ℕ → ℕ → ℕ → List ℕ
sub_slice buf from len = take len (drop from buf)

unfoldable pub level_mask : List ℕ → LevelMask
unfolding with_mask
level_mask buf = with_mask (byte_at buf 0 / 2 ^ 5)

unfoldable pub level : List ℕ → ℕ
unfolding level_mask Mask.level
level buf = Mask.level (level_mask buf)

unfoldable pub absent : List ℕ → Bool
absent buf = byte_at buf 0 == 0x17

unfoldable pub store_hashes : List ℕ → Bool
unfolding absent
store_hashes buf = if absent buf then false else bit_and (byte_at buf 0) 16 == 16

unfoldable pub exotic : List ℕ → Bool
exotic buf = bit_and (byte_at buf 0) 8 == 8

unfoldable pub refs_count : List ℕ → ℕ
unfolding absent
refs_count buf = if absent buf then 0 else bit_and (byte_at buf 0) 7

-- The type is guessed from the number of references, since the data's place is not known yet.
guessed_type : List ℕ → CellType
unfolding exotic refs_count level
guessed_type buf =
    if not (exotic buf)
    then ordinary
    else if refs_count buf == 1
    then merkle_proof
    else if refs_count buf == 2
    then merkle_update
    else if refs_count buf == 0
    then (if level buf == 0 then library_reference else pruned_branch)
    else unknown

unfoldable pub hashes_count : List ℕ → ℕ
unfolding guessed_type level
hashes_count buf = if is_pruned_branch (guessed_type buf) then 1 else level buf + 1

unfoldable pub cell_data_len : List ℕ → ℕ
unfolding absent
cell_data_len buf =
    if absent buf then sha256_size else byte_at buf 1 / 2 + bit_and (byte_at buf 1) 1

unfoldable pub data_offset : List ℕ → ℕ
data_offset buf =
    if absent buf
    then 1
    else 2 + flag (store_hashes buf) * hashes_count buf * (sha256_size + depth_size)

unfoldable pub cell_data : List ℕ → List ℕ
cell_data buf = sub_slice buf (data_offset buf) (cell_data_len buf)

unfoldable pub bit_len : List ℕ → ℕ
bit_len buf =
    if absent buf
    then sha256_size * 8
    else if bit_and (byte_at buf 1) 1 == 0
    then byte_at buf 1 / 2 * 8
    else find_tag (cell_data buf)

-- `CellType::try_from(*byte).unwrap_or(CellType::Unknown)` on the first byte of the data.
type_or_unknown : Result CellType → CellType
type_or_unknown (ok t) = t
type_or_unknown _ = unknown

type_of_data : List ℕ → CellType
unfolding type_or_unknown try_from
type_of_data [] = unknown
type_of_data (byte ∷ rest) = type_or_unknown (try_from byte)

unfoldable pub cell_type : List ℕ → CellType
unfolding exotic cell_data type_of_data
cell_type buf = if not (exotic buf) then ordinary else type_of_data (cell_data buf)

unfoldable pub full_len : List ℕ → ℕ
unfolding data_offset cell_data_len
full_len buf = data_offset buf + cell_data_len buf

unfoldable pub hashes_len : List ℕ → ℕ
unfolding hashes_count
hashes_len buf = hashes_count buf * sha256_size

unfoldable pub hash : List ℕ → ℕ → List ℕ
hash buf index = sub_slice buf (2 + index * sha256_size) sha256_size

unfoldable pub depths_offset : List ℕ → ℕ
unfolding hashes_len
depths_offset buf = 2 + hashes_len buf

unfoldable pub depth : List ℕ → ℕ → ℕ
unfolding depths_offset
depth buf index =
    let offset = depths_offset buf + index * depth_size in
    bit_or (byte_at buf offset * 2 ^ 8) (byte_at buf (offset + 1))
