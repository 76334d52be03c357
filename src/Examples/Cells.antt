-- ===== src/Examples/Cells.antt =====
-- The theorems on level masks and packed cells at concrete values.
use ton_labs_types.Base.{ℕ, ◌+◌, ◌/◌, ◌≤◌, ◌≡◌, min, [], true, arith}
use ton_labs_types.Cell.LevelMask.{level, calc_hash_index}
use ton_labs_types.Cell.LevelMask.Laws.{set_bits, calc_hash_index-set_bits}
use ton_labs_types.Cell.CellType.{ordinary}
use ton_labs_types.Cell.Layout.{
  level_mask, store_hashes, exotic, refs_count, absent, cell_data_len, calc_d1, calc_d2,
}
use ton_labs_types.Cell.Layout.Fields.{descriptors_lem}
use ton_labs_types.Base.{◌∷◌, List, false}

calc_hash_index-set_bits_example :
    (calc_hash_index 5 2 ≡ set_bits (min 2 3) 5)
    × (calc_hash_index 5 2 ≤ level 5)
    × (calc_hash_index 5 (3 + 2) ≡ level 5)
calc_hash_index-set_bits_example = calc_hash_index-set_bits 5 2 (omega arith)

abbrev two_descriptors : List ℕ
two_descriptors = calc_d1 3 true ordinary 2 ∷ calc_d2 21 ∷ []

descriptors_lem_example :
    (level_mask two_descriptors ≡ 3)
    × (store_hashes two_descriptors ≡ true)
    × (exotic two_descriptors ≡ false)
    × (refs_count two_descriptors ≡ 2)
    × (absent two_descriptors ≡ false)
    × (cell_data_len two_descriptors ≡ (21 + 7) / 8)
descriptors_lem_example =
    descriptors_lem 3 2 21 true ordinary [] (omega arith) (omega arith) (omega arith)
