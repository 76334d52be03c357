-- ===== src/Dictionary/Get.antt =====
-- src/dictionary/mod.rs: the searches, `hashmap_get`, `hashmap_get_new`, `down_by_tree`, `find_leaf`
-- and `get_min_max`. A cell is loaded without a charge, as the gas consumer of type `u64` does
-- (src/lib.rs). Each round goes one bit down the key, so a round more than it has bits is enough.
use ton_labs_types.Base.{
  ℕ, zero, suc, ◌+◌, ◌-◌, Bool, true, false, not, ◌&&◌, List, Option, none, some, ltb, ◌==◌,
  if◌then◌else◌,
}
use ton_labs_types.Types.{Result, ok, err, panic, fail, dictionary_error, message, ◌>>=◌}
use ton_labs_types.Cell.Tree.{Cell}
use ton_labs_types.Builder.{BuilderData, new, trunc}
use ton_labs_types.Builder as Builder
use ton_labs_types.Builder.Operations.{append_bit_bool}
use ton_labs_types.Slice.{SliceData, remaining_bits, is_empty, load_cell, reference, get_bit}
use ton_labs_types.Slice.Prefix.{erase_prefix, common_prefix, get_next_bit_int, to_int}
use ton_labs_types.Slice.Transfer.{append_bytestring, load_builder}
use ton_labs_types.Dictionary.LabelReader.{
  LabelReader, new_reader, less, slice_get_label, get_label_raw, remainder, reader_reference,
}
use ton_labs_types.Dictionary.Kind.{HashmapType, check_key_fail}

-- `Leaf`
abbrev pub Leaf : Type 0
Leaf = Result (Option SliceData)

module _ (T : HashmapType) where
  -- `LabelReader::is_fork`: the reader goes on behind what the test reads.
  unfoldable pub reader_is_fork : LabelReader → Result (LabelReader × Bool)
  reader_is_fork r = do (s, fork) ← T.is_fork r.cursor; ok (record r { cursor = s }, fork)

  -- `LabelReader::is_leaf`
  unfoldable pub reader_is_leaf : LabelReader → Result (LabelReader × Bool)
  reader_is_leaf r = do (s, leaf) ← T.is_leaf r.cursor; ok (record r { cursor = s }, leaf)

  -- `LabelReader::next_reader`: the reader that was asked, and that of the child.
  unfoldable pub next_reader : LabelReader → ℕ → Result (LabelReader × LabelReader)
  next_reader r index = do
    (r', fork) ← reader_is_fork r
    if not fork then err message else (do
      child ← reader_reference r' index
      cursor ← load_cell child
      ok (r', new_reader cursor))

module _ (sha256 : List ℕ → List ℕ) (T : HashmapType) where
  -- Behind the `while` of `hashmap_get`: what is left of the key decides.
  unfoldable pub get_end : SliceData → SliceData → Leaf
  get_end key cursor =
      if is_empty key
      then (do (cursor', leaf) ← T.is_leaf cursor; ok (if leaf then some cursor' else none))
      else ok none

  -- The `while` of `hashmap_get`.
  unfoldable pub get_loop : ℕ → SliceData → SliceData → ℕ → SliceData → Leaf
  get_loop zero key cursor bit_len label = panic
  get_loop (suc fuel) key cursor bit_len label = do
    (key', erased) ← erase_prefix key label
    let rest : Leaf = (do
      (cursor', fork) ← T.is_fork cursor
      if not fork then ok none else (do
        (key'', next_index) ← get_next_bit_int key'
        child ← reference cursor' next_index
        loaded ← load_cell child
        bit_len' ← less bit_len (remaining_bits label + 1)
        (next', label') ← slice_get_label sha256 loaded bit_len'
        get_loop fuel key'' next' bit_len' label'))
    if erased && not (is_empty key') then rest else get_end key' cursor

  unfoldable pub hashmap_get : Option Cell → ℕ → SliceData → Leaf
  hashmap_get dict bit_len key = check_key_fail T bit_len key (elim dict [
    | none ↦ ok none
    | some root ↦ (do
      loaded ← load_cell root
      (cursor, label) ← slice_get_label sha256 loaded bit_len
      get_loop (remaining_bits key + 1) key cursor bit_len label)
  ])

  -- The loop of `down_by_tree`: the key so far and what is left of the prefix, behind the reader.
  unfoldable pub down_loop :
      ℕ
      → SliceData
      → LabelReader
      → ℕ
      → BuilderData
      → Result (LabelReader × BuilderData × Option SliceData)
  down_loop zero prefix cursor bit_len key = panic
  down_loop (suc fuel) prefix cursor bit_len key = do
    (cursor', bit_len', key') ← get_label_raw cursor bit_len key
    label ← load_builder sha256 key'
    (_prefix, rem_label, rem_prefix) ← common_prefix label prefix
    elim rem_label [
      | some _ ↦ ok (cursor', key', rem_prefix)
      | none ↦ elim rem_prefix [
        | none ↦ ok (cursor', key', none)
        | some rest ↦ (do
          bit_len'' ← less bit_len' 1
          (_rest, next_index) ← get_next_bit_int rest
          key'' ← append_bit_bool key' (next_index == 1)
          (_reader, child) ← next_reader T cursor' next_index
          down_loop fuel prefix child bit_len'' key'')
      ]
    ]

  unfoldable pub down_by_tree :
      SliceData → LabelReader → ℕ → Result (LabelReader × BuilderData × Option SliceData)
  down_by_tree prefix cursor bit_len =
      down_loop (remaining_bits prefix + 1) prefix cursor bit_len new

  unfoldable pub hashmap_get_new : Option Cell → ℕ → SliceData → Leaf
  hashmap_get_new dict bit_len key = check_key_fail T bit_len key (elim dict [
    | none ↦ ok none
    | some root ↦ (do
      loaded ← load_cell root
      (cursor, _key, rem_prefix) ← down_by_tree key (new_reader loaded) bit_len
      elim rem_prefix [
        | some _ ↦ ok none
        | none ↦ (do
          rest ← remainder cursor
          (rest', leaf) ← T.is_leaf rest
          ok (if leaf then some rest' else none))
      ])
  ])

  -- The loop of `get_min_max`: the path and the leaf. Each round takes a bit off `bit_len`.
  unfoldable pub min_max_loop :
      ℕ → Cell → BuilderData → ℕ → ℕ → ℕ → Result (BuilderData × Option SliceData)
  min_max_loop zero cell path bit_len next_index index = panic
  min_max_loop (suc fuel) cell path bit_len next_index index = do
    loaded ← load_cell cell
    (cursor, label) ← slice_get_label sha256 loaded bit_len
    let label_length = remaining_bits label
    let index' = if Builder.is_empty path && not (is_empty label) then next_index else index
    path' ← append_bytestring path label
    (cursor', fork) ← T.is_fork cursor
    elim (fork && ltb label_length bit_len) [
      | true ↦ (do
        path'' ← append_bit_bool path' (index' == 1)
        child ← reference cursor' index'
        min_max_loop fuel child path'' (bit_len - (label_length + 1)) next_index next_index)
      | false ↦ if bit_len == label_length then ok (path', some cursor') else fail dictionary_error
    ]

  unfoldable pub get_min_max :
      Cell → BuilderData → ℕ → ℕ → ℕ → Result (BuilderData × Option SliceData)
  get_min_max cell path bit_len next_index index =
      min_max_loop (bit_len + 1) cell path bit_len next_index index

  -- The side on which `find_leaf` looks next: the sign bit of the key stands the other way round.
  unfoldable pub next_side : Bool → BuilderData → Option SliceData → ℕ → ℕ
  next_side signed_int path none next_index =
      if signed_int && Builder.is_empty path then 1 - next_index else next_index
  next_side signed_int path (some prefix) next_index = next_index

  unfoldable pub find_loop :
      ℕ
      → Cell
      → BuilderData
      → ℕ
      → SliceData
      → ℕ
      → Bool
      → Bool
      → Result (BuilderData × Option SliceData)
  find_loop zero cell path bit_len key next_index eq signed_int = panic
  find_loop (suc fuel) cell path bit_len key next_index eq signed_int = do
    loaded ← load_cell cell
    (cursor, label) ← slice_get_label sha256 loaded bit_len
    (prefix, rem_key, rem_label) ← common_prefix key label
    let next' = next_side signed_int path prefix next_index
    elim rem_key [
      | none ↦ elim rem_label [
        | some _ ↦ fail dictionary_error
        | none ↦
            if eq
            then (append_bytestring path label >>= λ path'. ok (path', some cursor))
            else ok (path, none)
      ]
      | some rest ↦ elim rem_label [
        | some _ ↦ (do
          bit ← get_bit rest 0
          if not (to_int bit == next')
              then ok (path, none)
              else get_min_max cell path bit_len next_index next')
        | none ↦ (do
          (cursor', fork) ← T.is_fork cursor
          elim fork [
            | false ↦ fail dictionary_error
            | true ↦ (do
              path' ← append_bytestring path label
              (key', key_bit) ← get_next_bit_int rest
              bit_len' ← less bit_len (remaining_bits label + 1)
              path'' ← append_bit_bool path' (key_bit == 1)
              child ← reference cursor' key_bit
              (found_path, found) ← find_loop fuel child path'' bit_len' key' next_index eq false
              elim found [
                | some leaf ↦ ok (found_path, some leaf)
                | none ↦ if not (key_bit == next') then ok (found_path, none) else (do
                  path''' ← trunc found_path path'.length_in_bits
                  other_path ← append_bit_bool path''' (key_bit == 0)
                  other ← reference cursor' (1 - key_bit)
                  get_min_max other other_path bit_len' next_index next_index)
              ])
          ])
      ]
    ]

  -- `find_leaf`, which writes to the path.
  unfoldable pub find_leaf :
      Cell → BuilderData → ℕ → SliceData → ℕ → Bool → Bool → Result (BuilderData × Option SliceData)
  find_leaf cell path bit_len key next_index eq signed_int =
      find_loop (remaining_bits key + 1) cell path bit_len key next_index eq signed_int
