-- ===== src/Cell/CellType.antt =====
-- src/cell/mod.rs: `CellType` and its byte.
use ton_labs_types.Base.{ℕ, Bool, true, false, ◌==◌, if◌then◌else◌}
use ton_labs_types.Types.{Result, ok, err, message}

pub data CellType : Type 0 where
  unknown : CellType
  ordinary : CellType
  pruned_branch : CellType
  library_reference : CellType
  merkle_proof : CellType
  merkle_update : CellType

-- `TryFrom<u8>`
unfoldable pub try_from : ℕ → Result CellType
try_from num =
    if num == 1
    then ok pruned_branch
    else if num == 2
    then ok library_reference
    else if num == 3
    then ok merkle_proof
    else if num == 4
    then ok merkle_update
    else if num == 0xff
    then ok ordinary
    else err message

-- `From<CellType> for u8`
unfoldable pub to_u8 : CellType → ℕ
to_u8 unknown = 0
to_u8 ordinary = 0xff
to_u8 pruned_branch = 1
to_u8 library_reference = 2
to_u8 merkle_proof = 3
to_u8 merkle_update = 4

-- The derived `==`, on the constructors that the source compares with.
abbrev pub is_ordinary : CellType → Bool
is_ordinary ordinary = true
is_ordinary _ = false

abbrev pub is_pruned_branch : CellType → Bool
is_pruned_branch pruned_branch = true
is_pruned_branch _ = false

abbrev pub is_merkle_type : CellType → Bool
is_merkle_type merkle_proof = true
is_merkle_type merkle_update = true
is_merkle_type _ = false
