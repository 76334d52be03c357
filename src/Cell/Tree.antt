-- ===== src/Cell/Tree.antt =====
-- src/cell/mod.rs: `Cell` with the trait `CellImpl` for `DataCell` and `VirtualCell`. The source's
-- `Arc<dyn CellImpl>` is shared and never changed, so a cell is a value here. `UsageCell`, which
-- records visits, is not modelled.
use ton_labs_types.Base.{
  ℕ, zero, suc, ◌+◌, Bool, List, [], ◌∷◌, ◌==◌, ltb, if◌then◌else◌, length, get_elem?,
}
use ton_labs_types.Types.{
  Result, ok, err, message, exception, cell_underflow, unwrap_ok, ok_or, ◌>>=◌,
}
use ton_labs_types.Cell.LevelMask.{LevelMask, calc_virtual_hash_index, is_significant_index}
use ton_labs_types.Cell.LevelMask as Mask
use ton_labs_types.Cell.CellType.{CellType, is_merkle_type, is_pruned_branch}
use ton_labs_types.Cell.Data.{CellData}
use ton_labs_types.Cell.Data as Data
use ton_labs_types.Cell.Layout.{max_level}

-- A `DataCell` has its packed cell, its references and the counts of bits and cells in its tree.
mutual
  pub data Cell : Type 0 where
    data_cell : CellData → Cells → ℕ → ℕ → Cell
    virtual_cell : ℕ → Cell → Cell

  pub data Cells : Type 0 where
    nil : Cells
    cons : Cell → Cells → Cells

abbrev pub to_list : Cells → List Cell
to_list nil = []
to_list (cons c cs) = c ∷ to_list cs

abbrev pub of_list : List Cell → Cells
of_list [] = nil
of_list (c ∷ cs) = cons c (of_list cs)

unfoldable pub data_bytes : Cell → List ℕ
unfolding Data.data_bytes
data_bytes (data_cell d refs bits cells) = Data.data_bytes d
data_bytes (virtual_cell offset c) = data_bytes c

unfoldable pub raw_data : Cell → Result (List ℕ)
unfolding Data.raw_data
raw_data (data_cell d refs bits cells) = ok (Data.raw_data d)
raw_data (virtual_cell offset c) = err message

unfoldable pub packed : Cell → CellData
packed (data_cell d refs bits cells) = d
packed (virtual_cell offset c) = packed c

unfoldable pub bit_length : Cell → ℕ
unfolding Data.bit_length
bit_length (data_cell d refs bits cells) = Data.bit_length d
bit_length (virtual_cell offset c) = bit_length c

unfoldable pub references_count : Cell → ℕ
references_count (data_cell d refs bits cells) = length (to_list refs)
references_count (virtual_cell offset c) = references_count c

unfoldable pub cell_type : Cell → CellType
unfolding Data.cell_type
cell_type (data_cell d refs bits cells) = Data.cell_type d
cell_type (virtual_cell offset c) = cell_type c

unfoldable pub level_mask : Cell → LevelMask
unfolding Data.level_mask Mask.virtualize
level_mask (data_cell d refs bits cells) = Data.level_mask d
level_mask (virtual_cell offset c) = Mask.virtualize (level_mask c) offset

unfoldable pub level : Cell → ℕ
unfolding level_mask Mask.level
level c = Mask.level (level_mask c)

unfoldable pub store_hashes : Cell → Bool
unfolding Data.store_hashes
store_hashes (data_cell d refs bits cells) = Data.store_hashes d
store_hashes (virtual_cell offset c) = store_hashes c

unfoldable pub tree_bits_count : Cell → ℕ
tree_bits_count (data_cell d refs bits cells) = bits
tree_bits_count (virtual_cell offset c) = tree_bits_count c

unfoldable pub tree_cell_count : Cell → ℕ
tree_cell_count (data_cell d refs bits cells) = cells
tree_cell_count (virtual_cell offset c) = tree_cell_count c

unfoldable pub virtualization : Cell → ℕ
virtualization (data_cell d refs bits cells) = 0
virtualization (virtual_cell offset c) = offset

unfoldable pub hash : Cell → ℕ → Result (List ℕ)
unfolding Data.raw_hash level_mask calc_virtual_hash_index
hash (data_cell d refs bits cells) index = Data.raw_hash d index
hash (virtual_cell offset c) index =
    hash c (calc_virtual_hash_index (level_mask (virtual_cell offset c)) index offset)

unfoldable pub depth : Cell → ℕ → Result ℕ
unfolding Data.depth level_mask calc_virtual_hash_index
depth (data_cell d refs bits cells) index = Data.depth d index
depth (virtual_cell offset c) index =
    depth c (calc_virtual_hash_index (level_mask (virtual_cell offset c)) index offset)

unfoldable pub is_merkle : Cell → Bool
unfolding cell_type
is_merkle c = is_merkle_type (cell_type c)

unfoldable pub is_pruned : Cell → Bool
unfolding cell_type
is_pruned c = is_pruned_branch (cell_type c)

-- `Cell::virtualize`
unfoldable pub virtualize : Cell → ℕ → Cell
unfolding level_mask
virtualize c offset = if level_mask c == 0 then c else virtual_cell offset c

unfoldable pub reference : Cell → ℕ → Result Cell
unfolding virtualize
reference (data_cell d refs bits cells) index =
    ok_or (get_elem? (to_list refs) index) (exception cell_underflow)
reference (virtual_cell offset c) index = do child ← reference c index; ok (virtualize child offset)

unfoldable pub repr_hash : Cell → Result (List ℕ)
unfolding hash
repr_hash c = hash c max_level

unfoldable pub repr_depth : Cell → Result ℕ
unfolding depth
repr_depth c = depth c max_level

-- `for i in 0..count { refs.push(self.0.reference(i).unwrap()) }`, with `left` rounds to go.
unfoldable pub clone_from : Cell → ℕ → ℕ → Result (List Cell)
unfolding reference
clone_from c i zero = ok []
clone_from c i (suc left) = do
  child ← unwrap_ok (reference c i)
  rest ← clone_from c (i + 1) left
  ok (child ∷ rest)

unfoldable pub clone_references : Cell → Result (List Cell)
unfolding clone_from references_count
clone_references c = clone_from c 0 (references_count c)

-- The loop of `hashes` and `depths`, over the indices at which they push; `fuel` bounds `i`.
unfoldable pub pushed_indices : ℕ → LevelMask → ℕ → ℕ → List ℕ
unfolding Mask.level is_significant_index
pushed_indices zero m i len = []
pushed_indices (suc fuel) m i len =
    let skip = pushed_indices fuel m (i + 1) len in
    let push = i ∷ pushed_indices fuel m (i + 1) (len + 1) in
    if ltb len (Mask.level m + 1) then (if is_significant_index m i then push else skip) else []

collect {ℓ} : {A : Type ℓ} → (ℕ → Result A) → List ℕ → Result (List A)
collect f [] = ok []
collect f (i ∷ is) = do a ← f i; rest ← collect f is; ok (a ∷ rest)

-- Four indices are enough, since only they are significant.
unfoldable pub hashes : Cell → Result (List (List ℕ))
unfolding collect pushed_indices level_mask hash
hashes c = collect (hash c) (pushed_indices 4 (level_mask c) 0 0)

unfoldable pub depths : Cell → Result (List ℕ)
unfolding collect pushed_indices level_mask depth
depths c = collect (depth c) (pushed_indices 4 (level_mask c) 0 0)
