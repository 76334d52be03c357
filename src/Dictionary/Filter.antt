-- ===== src/Dictionary/Filter.antt =====
-- src/dictionary/mod.rs: `hashmap_filter` and `filter_next`.
use ton_labs_types.Base.{
  ℕ, zero, suc, ◌+◌, ◌-◌, Bool, true, false, ◌||◌, List, Option, none, some, ◌==◌, if◌then◌else◌,
}
use ton_labs_types.Types.{Result, ok, panic, ◌>>=◌}
use ton_labs_types.Cell.Tree.{Cell}
use ton_labs_types.Builder.{BuilderData, new, into_cell}
use ton_labs_types.Builder.Operations.{append_bit_bool}
use ton_labs_types.Slice.{SliceData, load_cell, move_by, checked_drain_reference}
use ton_labs_types.Slice.Transfer.{load_builder, checked_append_references_and_data}
use ton_labs_types.Dictionary.LabelReader.{slice_get_label_raw}
use ton_labs_types.Dictionary.Kind.{HashmapType, make_fork}

pub data HashmapFilterResult : Type 0 where
  cancel stop remove accept : HashmapFilterResult

-- `*result == Cancel || *result == Stop`
abbrev pub is_over : HashmapFilterResult → Bool
is_over cancel = true
is_over stop = true
is_over remove = false
is_over accept = false

abbrev pub is_cancel : HashmapFilterResult → Bool
is_cancel cancel = true
is_cancel stop = false
is_cancel remove = false
is_cancel accept = false

module _ {ℓ} (S : Type ℓ) where
  -- What `filter_next` writes to, and what it returns.
  pub record Filtered : Type ℓ where
    pub state : S
    pub cell_opt : Option Cell
    pub key : BuilderData
    pub result : HashmapFilterResult
    pub removed : Bool
    pub remainder : Option SliceData

-- A child that is still there: its cell, key and remainder.
abbrev pub Kept : Type 0
Kept = Option (Cell × BuilderData × Option SliceData)

unfoldable pub kept {ℓ} : {S : Type ℓ} → Filtered S → Kept
kept f = elim f.cell_opt [ some cell ↦ some (cell, f.key, f.remainder) | none ↦ none ]

module _ {ℓ} {S : Type ℓ} (sha256 : List ℕ → List ℕ) (T : HashmapType)
    (func : S → BuilderData → SliceData → Result (S × HashmapFilterResult)) where
  -- A walk that is over, or has nothing to walk, leaves what it was given.
  unfoldable pub left_alone :
      Option Cell → BuilderData → HashmapFilterResult → Option SliceData → S → Filtered S
  left_alone cell_opt key result remainder state = record {
    state = state;
    cell_opt = cell_opt;
    key = key;
    result = result;
    removed = false;
    remainder = remainder;
  }

  -- At a leaf the callback decides.
  unfoldable pub decided : Filtered S → HashmapFilterResult → Filtered S
  decided left remove = record left { cell_opt = none; removed = true }
  decided left accept = left
  decided left cancel = record left { result = cancel }
  decided left stop = record left { result = stop }

  unfoldable pub filter_leaf :
      Cell → BuilderData → HashmapFilterResult → SliceData → S → Result (Filtered S)
  filter_leaf cell key result cursor state = do
    (state', verdict) ← func state key cursor
    ok (decided (left_alone (some cell) key result (some cursor) state') verdict)

  -- The node above two children of which at least one has changed: a fork, an edge, or nothing. The
  -- new cell, the key and the remainder.
  unfoldable pub regrow :
      BuilderData → ℕ → ℕ → Kept → Kept → Result (Option Cell × BuilderData × Option SliceData)
  regrow key key_length this_bit_len none none = ok (none, key, none)
  regrow key key_length this_bit_len (some (left, _, _)) (some (right, _, _)) = do
    loaded ← load_builder sha256 key
    label ← move_by loaded key_length
    (builder, remainder) ← make_fork sha256 T label this_bit_len left right false
    cell ← into_cell sha256 builder
    ok (some cell, key, some remainder)
  regrow key key_length this_bit_len none (some (_, new_key, next_remainder)) = do
    loaded ← load_builder sha256 new_key
    label ← move_by loaded key_length
    builder ← T.make_cell_with_label label this_bit_len
    builder' ← elim next_remainder [
      | some remainder ↦ checked_append_references_and_data builder remainder
      | none ↦ ok builder
    ]
    cell ← into_cell sha256 builder'
    ok (some cell, new_key, next_remainder)
  regrow key key_length this_bit_len (some (_, new_key, next_remainder)) none = do
    loaded ← load_builder sha256 new_key
    label ← move_by loaded key_length
    builder ← T.make_cell_with_label label this_bit_len
    builder' ← elim next_remainder [
      | some remainder ↦ checked_append_references_and_data builder remainder
      | none ↦ ok builder
    ]
    cell ← into_cell sha256 builder'
    ok (some cell, new_key, next_remainder)

  -- Behind both children: the node is left alone, or regrown.
  unfoldable pub filter_fork :
      Cell → BuilderData → ℕ → ℕ → SliceData → Filtered S → Filtered S → Result (Filtered S)
  filter_fork cell key key_length bit_len cursor left right =
      if is_cancel right.result
      then ok (left_alone (some cell) key right.result none right.state)
      else if left.removed || right.removed
      then (do
        (cell_opt, new_key, remainder) ← regrow key key_length bit_len (kept left) (kept right)
        ok (record {
          state = right.state;
          cell_opt = cell_opt;
          key = new_key;
          result = right.result;
          removed = true;
          remainder = remainder;
        }))
      else ok (left_alone (some cell) key right.result (some cursor) right.state)

  unfoldable pub filter_next :
      ℕ → Option Cell → BuilderData → ℕ → HashmapFilterResult → S → Result (Filtered S)
  filter_next zero cell_opt key bit_len result state = panic
  filter_next (suc fuel) none key bit_len result state =
      ok (left_alone none key (if is_over result then result else cancel) none state)
  filter_next (suc fuel) (some cell) key bit_len result state = elim (is_over result) [
    | true ↦ ok (left_alone (some cell) key result none state)
    | false ↦ (do
      loaded ← load_cell cell
      (cursor, bit_len', key') ← slice_get_label_raw loaded bit_len key
      elim (bit_len' == 0) [
        | true ↦ filter_leaf cell key' result cursor state
        | false ↦ (do
          left_key ← append_bit_bool key' false
          (cursor', left_cell) ← checked_drain_reference cursor
          left ← filter_next fuel (some left_cell) left_key (bit_len' - 1) result state
          elim (is_cancel left.result) [
            | true ↦ ok (left_alone (some cell) key' left.result none left.state)
            | false ↦ (do
              right_key ← append_bit_bool key' true
              (cursor'', right_cell) ← checked_drain_reference cursor'
              right ←
                  filter_next fuel (some right_cell) right_key (bit_len' - 1) left.result left.state
              filter_fork cell key' key.length_in_bits bit_len cursor left right)
          ])
      ])
  ]

  -- The state and the new root.
  unfoldable pub hashmap_filter : Option Cell → ℕ → S → Result (S × Option Cell)
  hashmap_filter dict bit_len state = do
    filtered ← filter_next (bit_len + 1) dict new bit_len accept state
    ok (filtered.state, filtered.cell_opt)
