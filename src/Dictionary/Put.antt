-- ===== src/Dictionary/Put.antt =====
-- src/dictionary/mod.rs: `hashmap_set_with_mode` and what it calls. A function that may write to its
-- cell returns it; every path that fails does so before it writes, so an error returns no cell.
use ton_labs_types.Base.{
  ℕ, zero, suc, ◌+◌, bit_and, Bool, true, false, not, List, Option, none, some, ◌==◌, if◌then◌else◌,
}
use ton_labs_types.Types.{Result, ok, err, panic, fail, cell_underflow, fatal_error, ◌>>=◌}
use ton_labs_types.Cell.Tree.{Cell}
use ton_labs_types.Builder.{BuilderData, new, checked_append_reference, into_cell}
use ton_labs_types.Slice.{
  SliceData, remaining_bits, remaining_references, is_empty, shrink_data, load_cell,
  checked_drain_reference, included, unbounded,
}
use ton_labs_types.Slice.Reading.{get_next_bit}
use ton_labs_types.Slice.Prefix.{common_prefix, same_slice, get_next_bit_int}
use ton_labs_types.Slice.Transfer.{load_builder, default_slice}
use ton_labs_types.Dictionary.LabelReader.{less, slice_get_label}
use ton_labs_types.Dictionary.Kind.{HashmapType, check_key_fail, make_fork}

-- The modes, and `Mask::bit`.
unfoldable pub add_mode : ℕ
add_mode = 1

unfoldable pub replace_mode : ℕ
replace_mode = 2

unfoldable pub mode_bit : ℕ → ℕ → Bool
mode_bit mode bits = bit_and mode bits == bits

-- What a put ends with: the value that was there, and the cell.
abbrev pub Put : Type 0
Put = Result (Option SliceData × Cell)

-- `unwrap_or_default`
unfoldable pub slice_or_default : (List ℕ → List ℕ) → Option SliceData → Result SliceData
slice_or_default sha256 (some s) = ok s
slice_or_default sha256 none = default_slice sha256

module _ (sha256 : List ℕ → List ℕ) (T : HashmapType) (leaf : BuilderData) where
  -- The cell behind a call that may have failed.
  unfoldable pub cell_after : Cell → Put → Result Cell
  cell_after cell (ok (_, cell')) = ok cell'
  cell_after cell (err _) = ok cell
  cell_after cell panic = panic

  -- The slice of the fork is rebuilt around the child that `put` changes. An error of `put` is
  -- returned after that.
  unfoldable pub put_to_fork_with_mode :
      (Cell → ℕ → SliceData → Put)
      → SliceData
      → ℕ
      → SliceData
      → Result (Option SliceData × SliceData)
  put_to_fork_with_mode put slice bit_len key = do
    (key', next_index) ← get_next_bit_int key
    if not (remaining_references slice == 2) then fail cell_underflow else (do
      (slice', first) ← checked_drain_reference slice
      (slice'', second) ← checked_drain_reference slice'
      bit_len' ← less bit_len 1
      let outcome = put (if next_index == 1 then second else first) bit_len' key'
      child ← cell_after (if next_index == 1 then second else first) outcome
      builder ← checked_append_reference new (if next_index == 1 then first else child)
      builder' ← checked_append_reference builder (if next_index == 1 then child else second)
      slice''' ← load_builder sha256 builder'
      (result, _) ← outcome
      ok (result, slice'''))

  unfoldable pub slice_edge : SliceData → ℕ → SliceData → SliceData → SliceData → Result BuilderData
  slice_edge slice bit_len prefix label key = do
    let (key', _cut) = shrink_data key (included 1) unbounded
    (label', label_bit) ← get_next_bit label
    length ← less bit_len (remaining_bits prefix + 1)
    (slice', is_leaf) ← T.is_leaf slice
    existing ← T.make_cell_with_label_and_data label' length is_leaf slice'
    existing_cell ← into_cell sha256 existing
    another ← T.make_cell_with_label_and_builder key' length true leaf
    another_cell ← into_cell sha256 another
    (builder, _remainder) ← make_fork sha256 T prefix bit_len existing_cell another_cell label_bit
    ok builder

  -- The node is made again around `slice`, if the mode has the bit for what was found there.
  unfoldable pub put_back : ℕ → Cell → ℕ → SliceData → Bool → Option SliceData → SliceData → Put
  put_back mode cell bit_len label is_leaf found slice =
      if mode_bit mode (elim found [ none ↦ add_mode | some _ ↦ replace_mode ])
      then (do
        builder ← T.make_cell_with_label_and_data label bit_len is_leaf slice
        cell' ← into_cell sha256 builder
        ok (found, cell'))
      else ok (found, cell)

  -- Each round takes a bit of the key, so a round more than it has bits is enough.
  unfoldable pub put_loop : ℕ → ℕ → Cell → ℕ → SliceData → Put
  put_loop zero mode cell bit_len key = panic
  put_loop (suc fuel) mode cell bit_len key = do
    loaded ← load_cell cell
    (slice, label) ← slice_get_label sha256 loaded bit_len
    same ← same_slice label key
    elim same [
      | true ↦ (do
        (slice', is_leaf) ← T.is_leaf slice
        if not is_leaf
            then fail fatal_error
            else if mode_bit mode replace_mode
            then (do
              builder ← T.make_cell_with_label_and_builder key bit_len true leaf
              cell' ← into_cell sha256 builder
              ok (some slice', cell'))
            else ok (some slice', cell))
      | false ↦ elim (is_empty label) [
        | true ↦ (do
          (slice', is_leaf) ← T.is_leaf slice
          (found, slice'') ← put_to_fork_with_mode (put_loop fuel mode) slice' bit_len key
          put_back mode cell bit_len label is_leaf found slice'')
        | false ↦ (do
          (label_prefix, label_remainder, key_remainder) ← common_prefix label key
          elim key_remainder [
            | none ↦
                if mode_bit mode add_mode
                then (do
                  (slice', is_leaf) ← T.is_leaf slice
                  builder ← T.make_cell_with_label_and_data label bit_len is_leaf slice'
                  cell' ← into_cell sha256 builder
                  ok (none, cell'))
                else ok (none, cell)
            | some key' ↦ elim label_remainder [
              | some label' ↦
                  if mode_bit mode add_mode
                  then (do
                    prefix ← slice_or_default sha256 label_prefix
                    builder ← slice_edge slice bit_len prefix label' key'
                    cell' ← into_cell sha256 builder
                    ok (none, cell'))
                  else ok (none, cell)
              | none ↦ elim label_prefix [
                | none ↦ fail fatal_error
                | some prefix ↦ (do
                  (slice', is_leaf) ← T.is_leaf slice
                  bit_len' ← less bit_len (remaining_bits prefix)
                  (found, slice'') ← put_to_fork_with_mode (put_loop fuel mode) slice' bit_len' key'
                  put_back mode cell bit_len label is_leaf found slice'')
              ]
            ]
          ])
      ]
    ]

  unfoldable pub put_to_node_with_mode : ℕ → Cell → ℕ → SliceData → Put
  put_to_node_with_mode mode cell bit_len key =
      put_loop (remaining_bits key + 1) mode cell bit_len key

  -- The value that was there, and the new root. On an error the old root stays.
  unfoldable pub hashmap_set_with_mode :
      ℕ → Option Cell → ℕ → SliceData → Result (Option SliceData × Option Cell)
  hashmap_set_with_mode mode dict bit_len key = check_key_fail T bit_len key (elim dict [
    | some root ↦ (do
      (found, root') ← put_to_node_with_mode mode root bit_len key
      ok (found, some root'))
    | none ↦
        if mode_bit mode add_mode
        then (do
          builder ← T.make_cell_with_label_and_builder key bit_len true leaf
          root ← into_cell sha256 builder
          ok (none, some root))
        else ok (none, none)
  ])

unfoldable pub hashmap_setref_with_mode :
    (List ℕ → List ℕ)
    → HashmapType
    → Cell
    → ℕ
    → Option Cell
    → ℕ
    → SliceData
    → Result (Option SliceData × Option Cell)
hashmap_setref_with_mode sha256 T value mode dict bit_len key = do
  builder ← checked_append_reference new value
  hashmap_set_with_mode sha256 T builder mode dict bit_len key
