-- ===== src/Builder/IntoCell/Packed.antt =====
-- The packed cell that `into_cell` makes, and its way through `construct_cell`.
use ton_labs_types.Base.{
  ℕ, ◌+◌, ◌/◌, ◌≤◌, ◌<◌, ◌≡◌, refl, true, false, List, ◌∷◌, ◌++◌, arith, length, take, take-take,
  none, min, [],
}
use ton_labs_types.Types.{ok}
use ton_labs_types.Tag.{find_tag}
use ton_labs_types.Cell.LevelMask.{with_mask, with_level}
use ton_labs_types.Cell.CellType.{ordinary}
use ton_labs_types.Cell.Layout.Packed.{
  packed, packed-level_mask, packed-store_hashes, packed-cell_type, packed-cell_data,
  packed-bit_len,
}
use ton_labs_types.Cell.Layout.Build.{bytes_for, build_cell_buf, filled}
use ton_labs_types.Cell.Data.{CellData, local}
use ton_labs_types.Cell.Data as Data
use ton_labs_types.Cell.Tree.{Cell, data_cell, of_list}
use ton_labs_types.Cell.Finalize.{
  add_bits, add_cells, max_56_bits, construct_cell, finalize, add_depths, add_hashes, hash_at,
  hash_loop, check_type, expected_mask, hashed_data,
}
use ton_labs_types.Builder.IntoCell.Flat.{AllFlat, children_mask-flat}

-- An ordinary cell of level 0 with the hashes and depths that were computed so far.
abbrev pub cell_data_of : ℕ → List ℕ → ℕ → List (List ℕ × ℕ) → CellData
cell_data_of refs tagged n kept = record {
  buf = local (packed 0 refs tagged n);
  hashes_depths = kept;
}

module _ (tagged : List ℕ) (n refs : ℕ) (few : refs < 5) (fits : n ≤ 1023)
    (tag : find_tag tagged ≡ n) (long : length tagged ≡ n / 8 + 1) where
  pub built :
      Data.with_params ordinary tagged 0 refs false none none ≡ ok (cell_data_of refs tagged n [])
  unfolding Data.with_params build_cell_buf filled with_mask Data.kept_hashes
  built = ground (arith, tag)

  pub has_mask : (kept : List (List ℕ × ℕ)) → Data.level_mask (cell_data_of refs tagged n kept) ≡ 0
  unfolding Data.level_mask
  has_mask kept = packed-level_mask 0 refs tagged n (omega arith) few fits tag long

  pub has_no_hashes :
      (kept : List (List ℕ × ℕ)) → Data.store_hashes (cell_data_of refs tagged n kept) ≡ false
  unfolding Data.store_hashes
  has_no_hashes kept = packed-store_hashes 0 refs tagged n (omega arith) few fits tag long

  pub has_type :
      (kept : List (List ℕ × ℕ)) → Data.cell_type (cell_data_of refs tagged n kept) ≡ ordinary
  unfolding Data.cell_type
  has_type kept = packed-cell_type 0 refs tagged n (omega arith) few fits tag long

  pub has_bits : (kept : List (List ℕ × ℕ)) → Data.bit_length (cell_data_of refs tagged n kept) ≡ n
  unfolding Data.bit_length
  has_bits kept = packed-bit_len 0 refs tagged n (omega arith) few fits tag long

  pub has_data :
      (kept : List (List ℕ × ℕ))
      → Data.data_bytes (cell_data_of refs tagged n kept) ≡ take (bytes_for n) tagged
  unfolding Data.data_bytes
  has_data kept = packed-cell_data 0 refs tagged n (omega arith) few fits tag long

  module _ (sha256 : List ℕ → List ℕ) (deep : ℕ) (cells : List Cell) (count : length cells ≡ refs)
      (small : deep < 2048) (flat : AllFlat deep cells) where
    -- The first round of the loop hashes; the others are skipped, since the level is 0.
    rounds :
        (hash : List ℕ) (depth : ℕ)
        → hash_at sha256 2048 cells (cell_data_of refs tagged n []) 0 0 ≡ ok (hash, depth)
        → hash_loop sha256 2048 cells 4 0 0 0 (cell_data_of refs tagged n [])
          ≡ ok (cell_data_of refs tagged n ((hash, depth) ∷ []))
    unfolding hash_loop Data.set_hash_depth
    rounds hash depth e =
        ground (arith, e, has_no_hashes [], has_type [], has_type ((hash, depth) ∷ []))

    pub first_hash :
        (ds hs : List ℕ) (depth : ℕ)
        → add_depths 2048 0 0 cells ≡ ok (depth, ds)
        → add_hashes 0 cells ≡ ok hs
        → hash_at sha256 2048 cells (cell_data_of refs tagged n []) 0 0
          ≡ ok (sha256 (packed 0 refs tagged n ++ (ds ++ hs)), depth)
    unfolding hash_at with_level hashed_data Data.raw_data Data.buffer_data
    first_hash ds hs depth e e' =
        rw
          (
            has_type [],
            has_bits [],
            has_data [],
            e,
            e',
            count,
            take-take (bytes_for n) (bytes_for n) tagged (omega arith),
          )
          refl

    checked : check_type ordinary (cell_data_of refs tagged n []) cells ≡ ok tt
    unfolding check_type
    checked = ground (arith, has_bits [])

    finalized :
        (hash : List ℕ) (depth : ℕ)
        → hash_at sha256 2048 cells (cell_data_of refs tagged n []) 0 0 ≡ ok (hash, depth)
        → finalize sha256 2048 cells true (cell_data_of refs tagged n [])
          ≡ ok (cell_data_of refs tagged n ((hash, depth) ∷ []))
    unfolding finalize expected_mask with_mask
    finalized hash depth e =
        rw (has_type [], checked, has_mask [], children_mask-flat deep cells flat)
          (rounds hash depth e)

    -- The counts of bits and cells in the tree stop at their limits.
    abbrev pub tree_bits : ℕ
    tree_bits = min (add_bits n cells) max_56_bits

    abbrev pub tree_cells : ℕ
    tree_cells = min (add_cells 1 cells) max_56_bits

    pub constructed :
        (hash : List ℕ) (depth : ℕ)
        → hash_at sha256 2048 cells (cell_data_of refs tagged n []) 0 0 ≡ ok (hash, depth)
        → construct_cell sha256 2048 cells (cell_data_of refs tagged n [])
          ≡ ok (
              data_cell
                (cell_data_of refs tagged n ((hash, depth) ∷ []))
                (of_list cells)
                tree_bits
                tree_cells)
    unfolding construct_cell
    constructed hash depth e = rw (finalized hash depth e, has_bits []) refl
