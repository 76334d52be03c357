-- ===== src/Dictionary/Subtree.antt =====
-- src/dictionary/mod.rs: `HashmapSubtree`, the part of a dictionary below a prefix. On an error the
-- dictionary, whose `bit_len` may have changed, is not kept.
use ton_labs_types.Base.{
  ℕ, ◌-◌, true, false, ◌||◌, List, Option, none, some, ltb, leb, ◌==◌, if◌then◌else◌,
}
use ton_labs_types.Types.{Result, ok, err, message, ◌>>=◌}
use ton_labs_types.Cell.Tree.{Cell}
use ton_labs_types.Builder.{into_cell}
use ton_labs_types.Slice.{SliceData, remaining_bits, shrink_data, load_cell, included, unbounded}
use ton_labs_types.Slice.Prefix.{same_cell, same_slice}
use ton_labs_types.Slice.Transfer.{load_builder}
use ton_labs_types.Dictionary.LabelReader.{new_reader, with_cell, remainder}
use ton_labs_types.Dictionary.Kind.{HashmapType}
use ton_labs_types.Dictionary.Get.{down_by_tree}

module _ (sha256 : List ℕ → List ℕ) (T : HashmapType) where
  -- The new root.
  unfoldable pub subtree_with_prefix : Option Cell → ℕ → SliceData → Result (Option Cell)
  subtree_with_prefix dict bit_len prefix =
      let prefix_len = remaining_bits prefix in
      if prefix_len == 0 || ltb bit_len prefix_len then ok dict else elim dict [
        | none ↦ ok none
        | some root ↦ (do
          loaded ← load_cell root
          (cursor, key, rem_prefix) ← down_by_tree sha256 T prefix (new_reader loaded) bit_len
          elim rem_prefix [
            | some _ ↦ ok none
            | none ↦ (do
              label ← load_builder sha256 key
              rest ← remainder cursor
              (rest', is_leaf) ← T.is_leaf rest
              same ← same_cell rest'.cell root
              if same then ok (some root) else (do
                builder ← T.make_cell_with_label_and_data label bit_len is_leaf rest'
                cell ← into_cell sha256 builder
                ok (some cell)))
          ])
      ]

  -- The new `bit_len` and the new root.
  unfoldable pub subtree_without_prefix : Option Cell → ℕ → SliceData → Result (ℕ × Option Cell)
  subtree_without_prefix dict bit_len prefix =
      let prefix_len = remaining_bits prefix in
      if prefix_len == 0 || ltb bit_len prefix_len then ok (bit_len, dict) else elim dict [
        | none ↦ ok (bit_len, none)
        | some root ↦ (do
          loaded ← load_cell root
          (cursor, key, rem_prefix) ← down_by_tree sha256 T prefix (new_reader loaded) bit_len
          elim rem_prefix [
            | some _ ↦ ok (bit_len, none)
            | none ↦ (do
              label ← load_builder sha256 key
              let (label', _cut) = shrink_data label (included prefix_len) unbounded
              rest ← remainder cursor
              (rest', is_leaf) ← T.is_leaf rest
              builder ← T.make_cell_with_label_and_data label' (bit_len - prefix_len) is_leaf rest'
              cell ← into_cell sha256 builder
              ok (bit_len - prefix_len, some cell))
          ])
      ]

  unfoldable pub subtree_root_cell : Option Cell → ℕ → SliceData → Result (Option Cell)
  subtree_root_cell dict bit_len prefix =
      let prefix_len = remaining_bits prefix in
      if prefix_len == 0 || ltb bit_len prefix_len then err message else elim dict [
        | none ↦ ok none
        | some root ↦ (do
          reader ← with_cell root
          (cursor, _key, rem_prefix) ← down_by_tree sha256 T prefix reader bit_len
          elim rem_prefix [ none ↦ ok (some cursor.cursor.cell) | some _ ↦ ok none ])
      ]

  unfoldable pub into_subtree_with_prefix_not_exact :
      Option Cell → ℕ → SliceData → Result (Option Cell)
  into_subtree_with_prefix_not_exact dict bit_len prefix =
      if leb bit_len (remaining_bits prefix) then ok dict else elim dict [
        | none ↦ ok none
        | some root ↦ (do
          loaded ← load_cell root
          (cursor, key, rem_prefix) ← down_by_tree sha256 T prefix (new_reader loaded) bit_len
          whole ← elim rem_prefix [ some rest ↦ same_slice rest prefix | none ↦ ok false ]
          elim whole [
            | true ↦ ok none
            | false ↦ (do
              rest ← remainder cursor
              (rest', is_leaf) ← T.is_leaf rest
              label ← load_builder sha256 key
              builder ← T.make_cell_with_label_and_data label bit_len is_leaf rest'
              cell ← into_cell sha256 builder
              ok (some cell))
          ])
      ]
