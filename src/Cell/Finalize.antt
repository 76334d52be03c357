-- ===== src/Cell/Finalize.antt =====
-- src/cell/mod.rs: `DataCell::construct_cell` and `finalize`: the checks of a new cell's type,
-- size, references and level, then its hashes and depths. SHA-256 comes from another package and
-- is a parameter.
use ton_labs_types.Base.{
  ℕ, zero, suc, ◌+◌, ◌-◌, ◌*◌, ◌%◌, ◌^◌, min, max, bit_and, bit_or, Bool, true, false, not, ◌&&◌,
  ◌||◌, List, [], ◌∷◌, ◌++◌, ltb, ◌==◌, if◌then◌else◌, length, take,
}
use ton_labs_types.Types.{Result, ok, err, message, exception, range_check_error, ◌>>=◌}
use ton_labs_types.Cell.LevelMask.{LevelMask, with_level, with_mask, for_merkle_cell, bitor_assign}
use ton_labs_types.Cell.CellType.{
  CellType, unknown, ordinary, pruned_branch, library_reference, merkle_proof, merkle_update, to_u8,
  is_merkle_type, is_pruned_branch,
}
use ton_labs_types.Cell.Layout.{
  sha256_size, depth_size, max_depth_limit, max_data_bits, max_references_count, calc_d1, byte_at,
  flag,
}
use ton_labs_types.Cell.Layout.Build.{be_u16, bytes_for}
use ton_labs_types.Cell.Data.{CellData}
use ton_labs_types.Cell.Data as Data
use ton_labs_types.Cell.Tree.{Cell, data_cell, of_list, tree_bits_count, tree_cell_count}
use ton_labs_types.Cell.Tree as Tree

abbrev pub max_56_bits : ℕ
max_56_bits = 0x00ffffffffffffff

-- `u64::saturating_add`
abbrev saturating_add : ℕ → ℕ → ℕ
saturating_add a b = min (a + b) (2 ^ 64 - 1)

unfoldable pub add_bits : ℕ → List Cell → ℕ
unfolding tree_bits_count
add_bits acc [] = acc
add_bits acc (c ∷ cs) = add_bits (saturating_add acc (tree_bits_count c)) cs

unfoldable pub add_cells : ℕ → List Cell → ℕ
unfolding tree_cell_count
add_cells acc [] = acc
add_cells acc (c ∷ cs) = add_cells (saturating_add acc (tree_cell_count c)) cs

is_nil : List Cell → Bool
is_nil [] = true
is_nil (c ∷ cs) = false

-- The depths that a pruned cell holds must be in range.
check_pruned_depths : List ℕ → ℕ → ℕ → Result (Unit {0})
check_pruned_depths bytes zero offset = ok tt
check_pruned_depths bytes (suc left) offset =
    let rest = check_pruned_depths bytes left (offset + depth_size) in
    if ltb max_depth_limit (bit_or (byte_at bytes offset * 2 ^ 8) (byte_at bytes (offset + 1)))
    then err message
    else rest

-- The checks of one type: the data's size and the number of references.
unfoldable pub check_type : CellType → CellData → List Cell → Result (Unit {0})
unfolding Data.bit_length Data.level Data.data_bytes Data.level_mask Data.store_hashes is_nil
    check_pruned_depths to_u8
check_type pruned_branch c refs =
    let level = Data.level c in
    let bytes = Data.data_bytes c in
    if not (Data.bit_length c == 8 * (1 + 1 + level * (sha256_size + depth_size)))
    then err message
    else if not (is_nil refs)
    then err message
    else if not (byte_at bytes 0 == to_u8 pruned_branch)
    then err message
    else if not (byte_at bytes 1 == Data.level_mask c)
    then err message
    else if level == 0
    then err message
    else (do
      _ ← check_pruned_depths bytes level (1 + 1 + level * sha256_size)
      if Data.store_hashes c then err message else ok tt)
check_type merkle_proof c refs =
    if not (Data.bit_length c == 8 * (1 + sha256_size + 2))
    then err message
    else if not (length refs == 1)
    then err message
    else ok tt
check_type merkle_update c refs =
    if not (Data.bit_length c == 8 * (1 + 2 * (sha256_size + 2)))
    then err message
    else if not (length refs == 2)
    then err message
    else ok tt
check_type ordinary c refs =
    if ltb max_data_bits (Data.bit_length c)
    then err message
    else if ltb max_references_count (length refs)
    then err message
    else ok tt
check_type library_reference c refs =
    if not (Data.bit_length c == 8 * (1 + sha256_size))
    then err message
    else if not (is_nil refs)
    then err message
    else ok tt
check_type unknown c refs = err message

unfoldable pub children_mask : LevelMask → List Cell → LevelMask
unfolding bitor_assign Tree.level_mask
children_mask acc [] = acc
children_mask acc (c ∷ cs) = children_mask (bitor_assign acc (Tree.level_mask c)) cs

-- The level mask that a cell of this type must have.
unfoldable pub expected_mask : CellType → LevelMask → LevelMask → Result LevelMask
unfolding for_merkle_cell with_mask
expected_mask ordinary own children = ok children
expected_mask pruned_branch own children = ok own
expected_mask library_reference own children = ok (with_mask 0)
expected_mask merkle_proof own children = ok (for_merkle_cell children)
expected_mask merkle_update own children = ok (for_merkle_cell children)
expected_mask unknown own children = err (exception range_check_error)

-- The depth of a cell from those of its references, and the bytes hashed for them.
unfoldable pub add_depths : ℕ → ℕ → ℕ → List Cell → Result (ℕ × List ℕ)
unfolding Tree.depth
add_depths max_depth index depth [] = ok (depth, [])
add_depths max_depth index depth (c ∷ cs) = do
  child_depth ← Tree.depth c index
  let deeper = max depth ((child_depth + 1) % 2 ^ 16)
  if (not (max_depth == 0) && ltb max_depth deeper) || ltb max_depth_limit deeper
      then err message
      else (do
        (deepest, bytes) ← add_depths max_depth index deeper cs
        ok (deepest, be_u16 child_depth ++ bytes))

unfoldable pub add_hashes : ℕ → List Cell → Result (List ℕ)
unfolding Tree.hash
add_hashes index [] = ok []
add_hashes index (c ∷ cs) = do
  child_hash ← Tree.hash c index
  rest ← add_hashes index cs
  ok (child_hash ++ rest)

-- The data, or the hash of the level below.
unfoldable pub hashed_data : CellData → ℕ → Result (List ℕ)
unfolding Data.bit_length Data.data_bytes Data.raw_hash
hashed_data c zero = ok (take (bytes_for (Data.bit_length c)) (Data.data_bytes c))
hashed_data c (suc i) = Data.raw_hash c i

unfoldable pub bytes_eq : List ℕ → List ℕ → Bool
bytes_eq [] [] = true
bytes_eq (x ∷ xs) (y ∷ ys) = (x == y) && bytes_eq xs ys
bytes_eq _ _ = false

compare_stored : CellData → ℕ → List ℕ → ℕ → Result (Unit {0})
unfolding Data.depth Data.raw_hash bytes_eq
compare_stored c i hash depth = do
  stored_depth ← Data.depth c i
  if not (depth == stored_depth) then err message else (do
    stored_hash ← Data.raw_hash c i
    if bytes_eq hash stored_hash then ok tt else err message)

module _ (sha256 : List ℕ → List ℕ) (max_depth : ℕ) (refs : List Cell) where
  -- The hash and the depth at level `i`.
  unfoldable pub hash_at : CellData → LevelMask → ℕ → Result (List ℕ × ℕ)
  unfolding add_depths add_hashes hashed_data Data.cell_type Data.level_mask Data.raw_data
      with_level calc_d1
  hash_at c own i = do
    let kind = Data.cell_type c
    let mask = if is_pruned_branch kind then own else with_level (i % 2 ^ 8)
    let d1 = calc_d1 mask false kind (length refs)
    let d2 = byte_at (Data.raw_data c) 1
    let index = i + flag (is_merkle_type kind)
    data_part ← hashed_data c i
    (depth, depths) ← add_depths max_depth index 0 refs
    hashes ← add_hashes index refs
    ok (sha256 (d1 ∷ d2 ∷ (data_part ++ (depths ++ hashes))), depth)

  -- The rounds `i`, …, 3 of the loop; `slot` is `hash_array_index`.
  unfoldable pub hash_loop : ℕ → LevelMask → ℕ → ℕ → CellData → Result CellData
  unfolding hash_at compare_stored Data.store_hashes Data.set_hash_depth Data.cell_type
  hash_loop zero mask i slot c = ok c
  hash_loop (suc left) mask i slot c =
      let kind = Data.cell_type c in
      let next = hash_loop left mask (i + 1) slot c in
      let step = (do
        (hash, depth) ← hash_at c mask i
        if Data.store_hashes c then (do _ ← compare_stored c i hash depth; next) else (do
          c' ← Data.set_hash_depth c slot hash depth
          hash_loop left mask (i + 1) (slot + 1) c')) in
      if not (i == 0) && (is_pruned_branch kind || (bit_and (2 ^ (i - 1)) mask == 0))
      then next
      else step

  unfoldable pub finalize : Bool → CellData → Result CellData
  finalize force c = if not force && Data.store_hashes c then ok c else (do
    _ ← check_type (Data.cell_type c) c refs
    mask ← expected_mask (Data.cell_type c) (Data.level_mask c) (children_mask (with_mask 0) refs)
    if not (Data.level_mask c == mask) then err message else hash_loop 4 mask 0 0 c)

  unfoldable pub construct_cell : CellData → Result Cell
  construct_cell c = do
    let bits = min (add_bits (Data.bit_length c) refs) max_56_bits
    let cells = min (add_cells 1 refs) max_56_bits
    c' ← finalize true c
    ok (data_cell c' (of_list refs) bits cells)
