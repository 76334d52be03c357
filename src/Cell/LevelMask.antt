-- ===== src/Cell/LevelMask.antt =====
-- src/cell/mod.rs: `LevelMask`, the set of the levels at which a cell has a hash of its own, as
-- three bits of a `u8`. What the source only logs is not modelled.
pub mod Laws
use ton_labs_types.Base.{
  ℕ, ◌+◌, ◌/◌, ◌%◌, ◌^◌, bit_and, bit_or, min, Bool, not, ◌||◌, leb, ltb, ◌==◌, if◌then◌else◌,
}

abbrev pub LevelMask : Type 0
LevelMask = ℕ

unfoldable pub with_level : ℕ → LevelMask
with_level level =
    if level == 0
    then 0
    else if level == 1
    then 1
    else if level == 2
    then 3
    else if level == 3
    then 7
    else 0

unfoldable pub with_mask : ℕ → LevelMask
with_mask mask = if leb mask 7 then mask else 0

unfoldable pub for_merkle_cell : LevelMask → LevelMask
for_merkle_cell children_mask = children_mask / 2

unfoldable pub level : LevelMask → ℕ
level m = if ltb 7 m then 255 else bit_and m 1 + bit_and (m / 2) 1 + bit_and (m / 2 ^ 2) 1

-- The table in the source's comment differs from the code in one entry: it has the index 0 for the
-- mask 101 and the index 2, where the code gives 1.
unfoldable pub calc_hash_index : LevelMask → ℕ → ℕ
unfolding level with_mask with_level
calc_hash_index m index = level (with_mask (bit_and m (with_level (min index 3))))

unfoldable pub calc_virtual_hash_index : LevelMask → ℕ → ℕ → ℕ
unfolding calc_hash_index
calc_virtual_hash_index m index virt_offset =
    calc_hash_index (with_mask (m / 2 ^ virt_offset)) index

unfoldable pub virtualize : LevelMask → ℕ → LevelMask
unfolding with_mask
virtualize m virt_offset = with_mask (m / 2 ^ virt_offset)

unfoldable pub is_significant_index : LevelMask → ℕ → Bool
unfolding with_level
is_significant_index m index = index == 0 || not (bit_and m (with_level (index % 2 ^ 8)) == 0)

-- `|`, and `|=`, which does not check the range.
unfoldable pub bitor : LevelMask → LevelMask → LevelMask
unfolding with_mask
bitor m rhs = with_mask (bit_or m rhs)

unfoldable pub bitor_assign : LevelMask → LevelMask → LevelMask
bitor_assign m rhs = bit_or m rhs
