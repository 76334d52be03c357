-- ===== src/Cell/Data.antt =====
-- src/cell/mod.rs: `CellBuffer` and `CellData`, a packed cell with the hashes that are not packed.
-- A hash is a list of bytes.
use ton_labs_types.Base.{
  ℕ, ◌+◌, ◌*◌, ◌^◌, bit_or, Bool, true, false, List, [], ◌∷◌, ◌++◌, Option, none, some, ◌==◌,
  if◌then◌else◌, take, drop, get_elem?,
}
use ton_labs_types.Types.{Result, ok, err, message, unwrap, ◌>>=◌}
use ton_labs_types.Cell.LevelMask.{LevelMask, calc_hash_index}
use ton_labs_types.Cell.CellType.{CellType, is_pruned_branch}
use ton_labs_types.Cell.CellType as Kind
use ton_labs_types.Cell.Layout
use ton_labs_types.Cell.Layout.{byte_at, sub_slice, sha256_size, depth_size}
use ton_labs_types.Cell.Layout.Build.{build_cell_buf, check_cell_buf, set_hash, set_depth}

pub data CellBuffer : Type 0 where
  local : List ℕ → CellBuffer
  external : List ℕ → ℕ → CellBuffer

-- `CellBuffer::unbounded_data` and `CellBuffer::data`
unfoldable pub unbounded_data : CellBuffer → List ℕ
unbounded_data (local d) = d
unbounded_data (external buf offset) = drop offset buf

unfoldable pub buffer_data : CellBuffer → List ℕ
unfolding Layout.full_len
buffer_data (local d) = d
buffer_data (external buf offset) = take (Layout.full_len (drop offset buf)) (drop offset buf)

-- `unbounded_data_mut`, with what is then done to the bytes.
change_data : CellBuffer → (List ℕ → List ℕ) → Result CellBuffer
change_data (local d) f = ok (local (f d))
change_data (external buf offset) f = err message

pub record CellData : Type 0 where
  pub buf : CellBuffer
  pub hashes_depths : List (List ℕ × ℕ)

abbrev zip_with_depths : List (List ℕ) → List ℕ → List (List ℕ × ℕ)
zip_with_depths (h ∷ hs) (d ∷ ds) = (h, d) ∷ zip_with_depths hs ds
zip_with_depths _ _ = []

-- The `match` on `(store_hashes, hashes, depths)`.
unfoldable pub kept_hashes :
    Bool → ℕ → Option (List (List ℕ)) → Option (List ℕ) → Result (List (List ℕ × ℕ))
kept_hashes true count hashes depths = ok []
kept_hashes false count none none = ok []
kept_hashes false count (some hashes) (some depths) =
    ok (zip_with_depths (take count hashes) (take count depths))
kept_hashes false count _ _ = err message

unfoldable pub with_params :
    CellType → List ℕ → ℕ → ℕ → Bool → Option (List (List ℕ)) → Option (List ℕ) → Result CellData
unfolding build_cell_buf kept_hashes Layout.level
with_params cell_type bytes level_mask refs store_hashes hashes depths = do
  buffer ← build_cell_buf cell_type bytes level_mask refs store_hashes hashes depths
  kept ←
      kept_hashes store_hashes (if is_pruned_branch cell_type then 1 else Layout.level buffer + 1)
        hashes depths
  ok (record { buf = local buffer; hashes_depths = kept })

-- `CellData::new`: the data is the byte 80, not the tag 0x80.
unfoldable pub new : Result CellData
unfolding with_params
new = with_params Kind.ordinary (80 ∷ []) 0 0 false none none

unfoldable pub with_external_data : List ℕ → ℕ → Result CellData
unfolding check_cell_buf
with_external_data buffer offset = do
  _ ← check_cell_buf (drop offset buffer) true
  ok (record { buf = external buffer offset; hashes_depths = [] })

unfoldable pub with_raw_data : List ℕ → Result CellData
unfolding check_cell_buf
with_raw_data bytes = do
  _ ← check_cell_buf bytes false
  ok (record { buf = local bytes; hashes_depths = [] })

unfoldable pub raw_data : CellData → List ℕ
unfolding buffer_data
raw_data c = buffer_data c.buf

unfoldable pub cell_type : CellData → CellType
unfolding unbounded_data Layout.cell_type
cell_type c = Layout.cell_type (unbounded_data c.buf)

unfoldable pub data_bytes : CellData → List ℕ
unfolding unbounded_data Layout.cell_data
data_bytes c = Layout.cell_data (unbounded_data c.buf)

unfoldable pub bit_length : CellData → ℕ
unfolding unbounded_data Layout.bit_len
bit_length c = Layout.bit_len (unbounded_data c.buf)

unfoldable pub level : CellData → ℕ
unfolding unbounded_data Layout.level
level c = Layout.level (unbounded_data c.buf)

unfoldable pub level_mask : CellData → LevelMask
unfolding unbounded_data Layout.level_mask
level_mask c = Layout.level_mask (unbounded_data c.buf)

unfoldable pub store_hashes : CellData → Bool
unfolding unbounded_data Layout.store_hashes
store_hashes c = Layout.store_hashes (unbounded_data c.buf)

unfoldable pub references_count : CellData → ℕ
unfolding unbounded_data Layout.refs_count
references_count c = Layout.refs_count (unbounded_data c.buf)

unfoldable pub set_hash_depth : CellData → ℕ → List ℕ → ℕ → Result CellData
unfolding store_hashes change_data set_hash set_depth
set_hash_depth c index hash depth =
    if store_hashes c
    then (do
      buf ← change_data c.buf (λ d. set_hash d index hash)
      buf' ← change_data buf (λ d. set_depth d index depth)
      ok (record c { buf = buf' }))
    else ok (record c { hashes_depths = c.hashes_depths ++ ((hash, depth) ∷ []) })

-- A hash or depth that is kept beside the buffer; an index past the end panics.
unfoldable pub kept : CellData → ℕ → Result (List ℕ × ℕ)
kept c index = unwrap (get_elem? c.hashes_depths index)

unfoldable pub stored_hash : CellData → ℕ → Result (List ℕ)
stored_hash c index =
    if store_hashes c
    then ok (Layout.hash (unbounded_data c.buf) index)
    else (do (hash, depth) ← kept c index; ok hash)

unfoldable pub stored_depth : CellData → ℕ → Result ℕ
stored_depth c index =
    if store_hashes c
    then ok (Layout.depth (unbounded_data c.buf) index)
    else (do (hash, depth) ← kept c index; ok depth)

-- A pruned cell holds its lower hashes in its data, and keeps the representation hash at 0.
unfoldable pub raw_hash : CellData → ℕ → Result (List ℕ)
raw_hash c i =
    let index = calc_hash_index (level_mask c) i in
    if is_pruned_branch (cell_type c)
    then (if index == level c
        then stored_hash c 0
        else ok (sub_slice (data_bytes c) (1 + 1 + index * sha256_size) sha256_size))
    else stored_hash c index

unfoldable pub depth : CellData → ℕ → Result ℕ
depth c i =
    let index = calc_hash_index (level_mask c) i in
    let offset = 1 + 1 + level c * sha256_size + index * depth_size in
    if is_pruned_branch (cell_type c)
    then (if index == level c
        then stored_depth c 0
        else ok
            (bit_or (byte_at (data_bytes c) offset * 2 ^ 8) (byte_at (data_bytes c) (offset + 1))))
    else stored_depth c index
