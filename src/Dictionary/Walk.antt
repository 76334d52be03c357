-- ===== src/Dictionary/Walk.antt =====
-- src/dictionary/mod.rs: the walks over all leaves: `iterate_internal`, `count_internal`, the
-- iterator, `is_single` and `filter_next`. A callback takes a state and returns it. Each round takes
-- a bit off `bit_len`, so a round more than it counts is enough for a walk.
pub mod Bounds
use ton_labs_types.Base.{
  ℕ, zero, suc, ◌+◌, ◌-◌, ◌^◌, Bool, true, false, not, List, [], ◌∷◌, Option, none, some, ◌==◌,
  if◌then◌else◌,
}
use ton_labs_types.Types.{Result, ok, panic, ◌>>=◌}
use ton_labs_types.Cell.Tree.{Cell}
use ton_labs_types.Builder.{BuilderData, new}
use ton_labs_types.Builder.Operations.{append_bit_bool}
use ton_labs_types.Slice.{SliceData}
use ton_labs_types.Dictionary.LabelReader.{
  LabelReader, with_cell, remainder, get_label_raw, skip_label,
}
use ton_labs_types.Dictionary.Kind.{HashmapType}
use ton_labs_types.Dictionary.Get.{next_reader}

module _ (T : HashmapType) where
  -- `if !cursor.already_read() { … }` at the head of the walks.
  unfoldable pub read_key : LabelReader → ℕ → BuilderData → Result (LabelReader × ℕ × BuilderData)
  read_key cursor bit_len key =
      if cursor.already_read then ok (cursor, bit_len, key) else get_label_raw cursor bit_len key

  unfoldable pub skip_key : LabelReader → ℕ → Result (LabelReader × ℕ)
  skip_key cursor bit_len =
      if cursor.already_read then ok (cursor, bit_len) else skip_label cursor bit_len

  module _ {ℓ} {S : Type ℓ} (found : S → BuilderData → SliceData → Result (S × Bool)) where
    -- The state, and whether the walk went to its end.
    unfoldable pub iterate_loop : ℕ → LabelReader → BuilderData → ℕ → S → Result (S × Bool)
    iterate_loop zero cursor key bit_len state = panic
    iterate_loop (suc fuel) cursor key bit_len state = do
      (cursor', bit_len', key') ← read_key cursor bit_len key
      elim (bit_len' == 0) [
        | true ↦ (remainder cursor' >>= λ leaf. found state key' leaf)
        | false ↦ (do
          left_key ← append_bit_bool key' false
          (cursor'', left) ← next_reader T cursor' 0
          (state', more) ← iterate_loop fuel left left_key (bit_len' - 1) state
          elim more [
            | false ↦ ok (state', false)
            | true ↦ (do
              right_key ← append_bit_bool key' true
              (_cursor, right) ← next_reader T cursor'' 1
              iterate_loop fuel right right_key (bit_len' - 1) state')
          ])
      ]

    unfoldable pub iterate_internal : LabelReader → BuilderData → ℕ → S → Result (S × Bool)
    iterate_internal cursor key bit_len state = iterate_loop (bit_len + 1) cursor key bit_len state

  -- The count, and whether all leaves were counted: `false` once there are more than `max`.
  unfoldable pub count_loop : ℕ → LabelReader → ℕ → ℕ → ℕ → Result (ℕ × Bool)
  count_loop zero cursor bit_len len max = panic
  count_loop (suc fuel) cursor bit_len len max = do
    (cursor', bit_len') ← skip_key cursor bit_len
    elim (bit_len' == 0) [
      | true ↦ if len == max then ok (len, false) else ok (len + 1, true)
      | false ↦ (do
        (cursor'', left) ← next_reader T cursor' 0
        (len', more) ← count_loop fuel left (bit_len' - 1) len max
        elim more [
          | false ↦ ok (len', false)
          | true ↦ (do
            (_cursor, right) ← next_reader T cursor'' 1
            count_loop fuel right (bit_len' - 1) len' max)
        ])
    ]

  unfoldable pub count_internal : LabelReader → ℕ → ℕ → ℕ → Result (ℕ × Bool)
  count_internal cursor bit_len len max = count_loop (bit_len + 1) cursor bit_len len max

  -- `HashmapType::count`
  unfoldable pub hashmap_count : Option Cell → ℕ → ℕ → Result ℕ
  hashmap_count none bit_len max = ok 0
  hashmap_count (some root) bit_len max = do
    cursor ← with_cell root
    (len, _all) ← count_internal cursor bit_len 0 max
    ok len

  -- `HashmapType::len`, up to `usize::MAX`.
  unfoldable pub hashmap_len : Option Cell → ℕ → Result ℕ
  hashmap_len dict bit_len = hashmap_count dict bit_len (2 ^ 64 - 1)

  -- The stack of the iterator, the next reader first.
  abbrev pub Positions : Type 0
  Positions = List (LabelReader × ℕ × BuilderData)

  unfoldable pub from_hashmap : Option Cell → ℕ → Result Positions
  from_hashmap none bit_len = ok []
  from_hashmap (some root) bit_len = elim (with_cell root) [
    | ok cursor ↦ ok ((cursor, bit_len, new) ∷ [])
    | _ ↦ panic
  ]

  -- `next_item`: the next leaf, and the stack that is left. A round pops a position and pushes its
  -- two children.
  unfoldable pub next_item : ℕ → Positions → Result (Positions × Option (BuilderData × SliceData))
  next_item zero pos = panic
  next_item (suc fuel) [] = ok ([], none)
  next_item (suc fuel) ((cursor, bit_len, key) ∷ pos) = do
    (cursor', bit_len', key') ← get_label_raw cursor bit_len key
    elim (bit_len' == 0) [
      | true ↦ (remainder cursor' >>= λ leaf. ok (pos, some (key', leaf)))
      | false ↦ (do
        right_key ← append_bit_bool key' true
        (cursor'', right) ← next_reader T cursor' 1
        left_key ← append_bit_bool key' false
        (_cursor, left) ← next_reader T cursor'' 0
        next_item fuel ((left, bit_len' - 1, left_key) ∷ (right, bit_len' - 1, right_key) ∷ pos))
    ]

-- The key and the value, if the root is a leaf.
unfoldable pub is_single : Option Cell → ℕ → Result (Option (BuilderData × SliceData))
is_single none bit_len = ok none
is_single (some root) bit_len = do
  cursor ← with_cell root
  (cursor', bit_len', key) ← get_label_raw cursor bit_len new
  if not (bit_len' == 0) then ok none else (do leaf ← remainder cursor'; ok (some (key, leaf)))
