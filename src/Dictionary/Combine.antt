-- ===== src/Dictionary/Combine.antt =====
-- src/dictionary/mod.rs: two dictionaries made one, `combine_with` and `hashmap_merge`, and one made
-- two, `hashmap_split`.
use ton_labs_types.Base.{
  ℕ, zero, suc, ◌+◌, ◌-◌, Bool, true, false, not, ◌&&◌, ◌||◌, List, Option, none, some, ltb, ◌==◌,
  if◌then◌else◌,
}
use ton_labs_types.Types.{Result, ok, err, panic, fail, message, dictionary_error, ◌>>=◌}
use ton_labs_types.Cell.Tree.{Cell}
use ton_labs_types.Builder.{BuilderData, into_cell}
use ton_labs_types.Builder.Operations.{append_bit_zero, append_bit_one}
use ton_labs_types.Slice.{SliceData, remaining_bits, load_cell, reference, checked_drain_reference}
use ton_labs_types.Slice.Reading.{get_next_bit}
use ton_labs_types.Slice.Prefix.{common_prefix, same_slice, get_next_bit_int}
use ton_labs_types.Slice.Transfer.{from_slice, load_builder, append_bytestring}
use ton_labs_types.Dictionary.LabelReader.{less, slice_get_label}
use ton_labs_types.Dictionary.Kind.{HashmapType, make_fork, make_cell_with_remainder}
use ton_labs_types.Dictionary.Put.{slice_or_default}

module _ (sha256 : List ℕ → List ℕ) (T : HashmapType) where
  unfoldable pub fork_cell : SliceData → ℕ → Cell → Cell → Bool → Result Cell
  fork_cell label bit_len left right swap = do
    (builder, _remainder) ← make_fork sha256 T label bit_len left right swap
    into_cell sha256 builder

  unfoldable pub remainder_cell : SliceData → ℕ → SliceData → Result Cell
  remainder_cell label bit_len cursor = do
    builder ← make_cell_with_remainder T label bit_len cursor
    into_cell sha256 builder

  -- Whether the first tree has changed, and its cell.
  abbrev pub Combined : Type 0
  Combined = Result (Bool × Cell)

  unfoldable pub dict_combine_with_cell :
      (Cell → ℕ → SliceData → SliceData → ℕ → Combined) → Cell → Cell → ℕ → Combined
  dict_combine_with_cell combine cell1 cell2 bit_len = do
    loaded ← load_cell cell2
    (cursor2, label2) ← slice_get_label sha256 loaded bit_len
    bit_len2 ← less bit_len (remaining_bits label2)
    combine cell1 bit_len cursor2 label2 bit_len2

  -- The children of two forks with the same label.
  unfoldable pub combine_forks :
      (Cell → ℕ → SliceData → SliceData → ℕ → Combined)
      → Cell
      → ℕ
      → SliceData
      → SliceData
      → SliceData
      → ℕ
      → Combined
  combine_forks combine cell1 bit_len cursor1 label1 cursor2 bit_len1 = do
    (cursor1', left1) ← checked_drain_reference cursor1
    (cursor2', left2) ← checked_drain_reference cursor2
    (_cursor, right1) ← checked_drain_reference cursor1'
    (_cursor, right2) ← checked_drain_reference cursor2'
    (changed, left) ← dict_combine_with_cell combine left1 left2 (bit_len1 - 1)
    (changed', right) ← dict_combine_with_cell combine right1 right2 (bit_len1 - 1)
    if changed || changed'
        then (fork_cell label1 bit_len left right false >>= λ cell. ok (true, cell))
        else ok (false, cell1)

  -- Each round takes a bit off `bit_len`, so a round more than it counts is enough.
  unfoldable pub combine_loop : ℕ → Cell → ℕ → SliceData → SliceData → ℕ → Combined
  combine_loop zero cell1 bit_len cursor2 label2 bit_len2 = panic
  combine_loop (suc fuel) cell1 bit_len cursor2 label2 bit_len2 = do
    loaded ← load_cell cell1
    (cursor1, label1) ← slice_get_label sha256 loaded bit_len
    bit_len1 ← less bit_len (remaining_bits label1)
    (prefix_opt, rem1_opt, rem2_opt) ← common_prefix label1 label2
    elim rem1_opt [
      | none ↦ elim rem2_opt [
        | none ↦ (do
          same ← same_slice cursor1 cursor2
          elim same [
            | true ↦ ok (false, cell1)
            | false ↦ elim (bit_len1 == 0) [
              | true ↦ fail dictionary_error
              | false ↦
                  combine_forks (combine_loop fuel) cell1 bit_len cursor1 label1 cursor2 bit_len1
            ]
          ])
        | some rem2 ↦ elim (bit_len1 == 0) [
          | true ↦ fail dictionary_error
          | false ↦ (do
            (rem2', next_index) ← get_next_bit_int rem2
            next' ← reference cursor1 next_index
            other ← reference cursor1 (1 - next_index)
            (changed, next'') ← combine_loop fuel next' (bit_len1 - 1) cursor2 rem2' bit_len2
            if not changed
                then ok (false, cell1)
                else (fork_cell label1 bit_len next'' other (not (next_index == 0)) >>= λ cell.
                    ok (true, cell)))
        ]
      ]
      | some rem1 ↦ (do
        (rem1', next_index) ← get_next_bit_int rem1
        elim rem2_opt [
          | some rem2 ↦ (do
            (rem2', _bit) ← get_next_bit_int rem2
            prefix ← slice_or_default sha256 prefix_opt
            let below = bit_len - remaining_bits prefix - 1
            left ← remainder_cell rem1' below cursor1
            right ← remainder_cell rem2' below cursor2
            cell ← fork_cell prefix bit_len left right (not (next_index == 0))
            ok (true, cell))
          | none ↦ elim (bit_len2 == 0) [
            | true ↦ fail dictionary_error
            | false ↦ (do
              next' ← reference cursor2 next_index
              other ← reference cursor2 (1 - next_index)
              (_changed, next'') ← combine_loop fuel next' (bit_len2 - 1) cursor1 rem1' bit_len1
              cell ← fork_cell label2 bit_len next'' other (not (next_index == 0))
              ok (true, cell))
          ]
        ])
    ]

  unfoldable pub dict_combine_with : Cell → ℕ → SliceData → SliceData → ℕ → Combined
  dict_combine_with cell1 bit_len cursor2 label2 bit_len2 =
      combine_loop (bit_len + 1) cell1 bit_len cursor2 label2 bit_len2

  -- Whether the first dictionary has changed, and its root.
  unfoldable pub combine_with : Option Cell → ℕ → Option Cell → ℕ → Result (Bool × Option Cell)
  combine_with dict bit_len other other_bit_len =
      if not (bit_len == other_bit_len) then err message else elim other [
        | none ↦ ok (false, dict)
        | some cell2 ↦ elim dict [
          | none ↦ ok (true, some cell2)
          | some cell1 ↦ (do
            (changed, cell) ← dict_combine_with_cell dict_combine_with cell1 cell2 bit_len
            ok (changed, some (if changed then cell else cell1)))
        ]
      ]

  -- One half of a split: the label of the child behind `key` and a bit.
  unfoldable pub split_half :
      (BuilderData → Result BuilderData) → SliceData → ℕ → ℕ → Cell → Result BuilderData
  split_half append_bit key bit_len below child = do
    loaded ← load_cell child
    (cursor, label) ← slice_get_label sha256 loaded below
    builder ← from_slice key
    builder' ← append_bit builder
    builder'' ← append_bytestring builder' label
    whole ← load_builder sha256 builder''
    T.make_cell_with_label_and_data whole bit_len false cursor

  unfoldable pub hashmap_split : Option Cell → ℕ → SliceData → Result (Option Cell × Option Cell)
  hashmap_split none bit_len key = ok (none, none)
  hashmap_split (some root) bit_len key = do
    loaded ← load_cell root
    (cursor, label) ← slice_get_label sha256 loaded bit_len
    (_prefix, rem_label, rem_key) ← common_prefix label key
    elim rem_key [
      | some _ ↦ err message
      | none ↦ elim rem_label [
        | some label_remainder ↦ (do
          (_rest, bit) ← get_next_bit label_remainder
          ok (if bit then (none, some root) else (some root, none)))
        | none ↦ (do
          below ← less bit_len (remaining_bits label + 1)
          left_child ← reference cursor 0
          right_child ← reference cursor 1
          left ← split_half append_bit_zero key bit_len below left_child
          right ← split_half append_bit_one key bit_len below right_child
          left_cell ← into_cell sha256 left
          right_cell ← into_cell sha256 right
          ok (some left_cell, some right_cell))
      ]
    ]

  -- The new root of two trees whose labels part: the left one first.
  unfoldable pub merge_roots :
      SliceData → ℕ → SliceData → SliceData → SliceData → SliceData → Result Cell
  merge_roots prefix bit_len left cursor right other = do
    (cursor', is_leaf1) ← T.is_leaf cursor
    (other', is_leaf2) ← T.is_leaf other
    next_bit_len ← less bit_len (remaining_bits prefix + 1)
    left_builder ← T.make_cell_with_label_and_data left next_bit_len is_leaf1 cursor'
    right_builder ← T.make_cell_with_label_and_data right next_bit_len is_leaf2 other'
    left_cell ← into_cell sha256 left_builder
    right_cell ← into_cell sha256 right_builder
    fork_cell prefix bit_len left_cell right_cell false

  -- The root that `self` has then. `key` has to lie in the prefix that the two labels share.
  unfoldable pub hashmap_merge :
      Option Cell → ℕ → Option Cell → ℕ → SliceData → Result (Option Cell)
  hashmap_merge dict bit_len other other_bit_len key =
      if not (bit_len == other_bit_len) || ltb bit_len (remaining_bits key)
      then ok dict
      else elim dict [
        | none ↦ ok other
        | some root ↦ (do
          loaded ← load_cell root
          elim other [
            | none ↦ ok (some root)
            | some other_root ↦ (do
              other_loaded ← load_cell other_root
              (cursor, label1) ← slice_get_label sha256 loaded bit_len
              (other_cursor, label2) ← slice_get_label sha256 other_loaded bit_len
              (prefix_opt, left_opt, right_opt) ← common_prefix label1 label2
              elim left_opt [
                | none ↦ err message
                | some left ↦ elim right_opt [
                  | none ↦ err message
                  | some right ↦ (do
                    prefix ← slice_or_default sha256 prefix_opt
                    (_prefix, _rest, beyond) ← common_prefix prefix key
                    elim beyond [
                      | some _ ↦ err message
                      | none ↦ (do
                        (left', left_bit) ← get_next_bit left
                        (right', right_bit) ← get_next_bit right
                        cell ←
                            if left_bit && not right_bit
                            then merge_roots prefix bit_len right' other_cursor left' cursor
                            else merge_roots prefix bit_len left' cursor right' other_cursor
                        ok (some cell))
                    ])
                ]
              ])
          ])
      ]
