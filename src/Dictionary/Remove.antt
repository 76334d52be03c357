-- ===== src/Dictionary/Remove.antt =====
-- src/dictionary/mod.rs: `remove_node` and `hashmap_remove`. `after_remove`, which does nothing for
-- the two kinds of dictionaries, is left out.
use ton_labs_types.Base.{
  ℕ, zero, suc, ◌+◌, ◌-◌, true, false, List, Option, none, some, ltb, ◌==◌, if◌then◌else◌,
}
use ton_labs_types.Types.{Result, ok, panic, fail, cell_underflow, ◌>>=◌}
use ton_labs_types.Cell.Tree.{Cell}
use ton_labs_types.Builder.{into_cell}
use ton_labs_types.Slice.{SliceData, remaining_bits, load_cell, reference}
use ton_labs_types.Slice.Prefix.{common_prefix, get_next_bit_int}
use ton_labs_types.Dictionary.LabelReader.{slice_get_label}
use ton_labs_types.Dictionary.Kind.{HashmapType, check_key_fail, make_fork, make_edge}

-- What a removal ends with: the value that was there, and the cell that is left.
abbrev pub Removed : Type 0
Removed = Result (Option SliceData × Option Cell)

module _ (sha256 : List ℕ → List ℕ) (T : HashmapType) where
  -- The node above a child from which a value was removed: a fork of the new child and the other, or
  -- an edge to the other child alone.
  unfoldable pub rejoin : SliceData → ℕ → ℕ → Option Cell → Cell → Result Cell
  rejoin label bit_len next_index (some next) other = do
    (builder, _remainder) ← make_fork sha256 T label bit_len next other (next_index == 1)
    into_cell sha256 builder
  rejoin label bit_len next_index none other = do
    loaded ← load_cell other
    builder ← make_edge sha256 T label bit_len (next_index == 1) loaded
    into_cell sha256 builder

  -- Each round takes a bit of the key, so a round more than it has bits is enough.
  unfoldable pub remove_loop : ℕ → Option Cell → ℕ → SliceData → Removed
  remove_loop zero dict bit_len key = panic
  remove_loop (suc fuel) none bit_len key = ok (none, none)
  remove_loop (suc fuel) (some cell) bit_len key = do
    loaded ← load_cell cell
    (cursor, label) ← slice_get_label sha256 loaded bit_len
    (_prefix, rem_label, rem_key) ← common_prefix label key
    elim rem_label [
      | none ↦ elim rem_key [
        | some rest ↦ elim (ltb bit_len (1 + remaining_bits label)) [
          | true ↦ fail cell_underflow
          | false ↦ (do
            (cursor', fork) ← T.is_fork cursor
            elim fork [
              | false ↦ fail cell_underflow
              | true ↦ (do
                (rest', next_index) ← get_next_bit_int rest
                next_cell ← reference cursor' next_index
                (result, next_cell') ←
                    remove_loop fuel (some next_cell) (bit_len - (1 + remaining_bits label)) rest'
                elim result [
                  | none ↦ ok (none, some cell)
                  | some leaf ↦ (do
                    other ← reference cursor' (1 - next_index)
                    cell' ← rejoin label bit_len next_index next_cell' other
                    ok (some leaf, some cell'))
                ])
            ])
        ]
        | none ↦ (do
          (cursor', is_leaf) ← T.is_leaf cursor
          if is_leaf then ok (some cursor', none) else fail cell_underflow)
      ]
      | some _ ↦ elim rem_key [ some _ ↦ ok (none, some cell) | none ↦ fail cell_underflow ]
    ]

  unfoldable pub remove_node : Option Cell → ℕ → SliceData → Removed
  remove_node dict bit_len key = remove_loop (remaining_bits key + 1) dict bit_len key

  unfoldable pub hashmap_remove : Option Cell → ℕ → SliceData → Removed
  hashmap_remove dict bit_len key = check_key_fail T bit_len key (remove_node dict bit_len key)
