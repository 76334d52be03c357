-- ===== src/Dictionary/PfxHashmapE.antt =====
-- src/dictionary/pfxhashmap.rs: `PfxHashmapE`, dictionaries whose keys have at most `bit_len` bits
-- and none of which is the prefix of another. The methods with and without a gas consumer are one
-- definition. A round of a search goes down one edge, which takes a bit of the key or off `bit_len`.
use ton_labs_types.Base.{
  ℕ, zero, suc, ◌+◌, ◌-◌, Bool, true, false, ◌||◌, List, Option, none, some, ltb, leb, ◌==◌,
  if◌then◌else◌,
}
use ton_labs_types.Types.{Result, ok, panic, ◌>>=◌}
use ton_labs_types.Cell.Tree.{Cell}
use ton_labs_types.Builder.{BuilderData, new}
use ton_labs_types.Builder.Operations.{append_bit_bool}
use ton_labs_types.Slice.{
  SliceData, remaining_bits, remaining_references, is_empty, load_cell, shrink_data, reference,
  excluded, unbounded,
}
use ton_labs_types.Slice.Prefix.{common_prefix, get_next_bit_int}
use ton_labs_types.Slice.Transfer.{
  from_slice, checked_append_references_and_data, load_builder, default_slice,
}
use ton_labs_types.Dictionary.LabelReader.{slice_get_label}
use ton_labs_types.Dictionary.Kind.{pfx_hashmap_e, pfx_is_leaf}
use ton_labs_types.Dictionary.Get.{Leaf, hashmap_get}
use ton_labs_types.Dictionary.Put.{
  add_mode, replace_mode, hashmap_set_with_mode, hashmap_setref_with_mode,
}
use ton_labs_types.Dictionary.Remove.{hashmap_remove}

pub record PfxHashmapE : Type 0 where
  pub bit_len : ℕ
  pub root : Option Cell

unfoldable pub with_hashmap : ℕ → Option Cell → PfxHashmapE
with_hashmap bit_len root = record { bit_len = bit_len; root = root }

unfoldable pub with_bit_len : ℕ → PfxHashmapE
with_bit_len bit_len = with_hashmap bit_len none

-- What a change leaves: the value that was there, and the dictionary.
abbrev pub Changed : Type 0
Changed = Result (Option SliceData × PfxHashmapE)

unfoldable pub with_root : PfxHashmapE → Result (Option SliceData × Option Cell) → Changed
with_root m outcome = do (found, root) ← outcome; ok (found, record m { root = root })

module _ (sha256 : List ℕ → List ℕ) where
  unfoldable pub get : PfxHashmapE → SliceData → Leaf
  get m key = hashmap_get sha256 pfx_hashmap_e m.root m.bit_len key

  unfoldable pub put_builder : ℕ → PfxHashmapE → SliceData → BuilderData → Changed
  put_builder mode m key value =
      with_root m (hashmap_set_with_mode sha256 pfx_hashmap_e value mode m.root m.bit_len key)

  unfoldable pub set_builder : PfxHashmapE → SliceData → BuilderData → Changed
  set_builder = put_builder (add_mode + replace_mode)

  unfoldable pub replace_builder : PfxHashmapE → SliceData → BuilderData → Changed
  replace_builder = put_builder replace_mode

  unfoldable pub set : PfxHashmapE → SliceData → SliceData → Changed
  set m key value = do builder ← from_slice value; set_builder m key builder

  unfoldable pub replace : PfxHashmapE → SliceData → SliceData → Changed
  replace m key value = do builder ← from_slice value; replace_builder m key builder

  unfoldable pub put_reference : ℕ → PfxHashmapE → SliceData → Cell → Changed
  put_reference mode m key value =
      with_root m (hashmap_setref_with_mode sha256 pfx_hashmap_e value mode m.root m.bit_len key)

  unfoldable pub setref : PfxHashmapE → SliceData → Cell → Changed
  setref = put_reference (add_mode + replace_mode)

  unfoldable pub replaceref : PfxHashmapE → SliceData → Cell → Changed
  replaceref = put_reference replace_mode

  unfoldable pub remove : PfxHashmapE → SliceData → Changed
  remove m key = with_root m (hashmap_remove sha256 pfx_hashmap_e m.root m.bit_len key)

  -- `next_index >= cursor.remaining_references() || bit_len < label.remaining_bits() + 1`
  unfoldable pub is_broken : SliceData → ℕ → SliceData → ℕ → Bool
  is_broken cursor bit_len label next_index =
      leb (remaining_references cursor) next_index || ltb bit_len (remaining_bits label + 1)

  -- The loop of `is_prefix`, of which the key is as it is where it equals the label.
  unfoldable pub is_prefix_loop : ℕ → SliceData → SliceData → ℕ → SliceData → Result Bool
  is_prefix_loop zero key cursor bit_len label = panic
  is_prefix_loop (suc fuel) key cursor bit_len label = do
    (_prefix, rem_label, rem_key) ← common_prefix label key
    elim rem_label [
      | some _ ↦ elim rem_key [ none ↦ ok true | some _ ↦ ok false ]
      | none ↦ (do
        let key' : SliceData = elim rem_key [ some remainder ↦ remainder | none ↦ key ]
        (cursor', leaf) ← pfx_is_leaf cursor
        elim leaf [
          | true ↦ ok false
          | false ↦ (do
            (key'', next_index) ← get_next_bit_int key'
            elim (is_broken cursor' bit_len label next_index) [
              | true ↦ ok false
              | false ↦ (do
                child ← reference cursor' next_index
                loaded ← load_cell child
                let bit_len' = bit_len - (remaining_bits label + 1)
                (next', label') ← slice_get_label sha256 loaded bit_len'
                is_prefix_loop fuel key'' next' bit_len' label')
            ])
        ])
    ]

  unfoldable pub is_prefix : PfxHashmapE → SliceData → Result Bool
  is_prefix m key = elim m.root [
    | none ↦ ok false
    | some root ↦ if is_empty key then ok false else (do
      loaded ← load_cell root
      (cursor, label) ← slice_get_label sha256 loaded m.bit_len
      is_prefix_loop (m.bit_len + 1) key cursor m.bit_len label)
  ]

  -- The path, the value if there is one, and what is left of the key.
  abbrev pub Prefixed : Type 0
  Prefixed = Result (SliceData × Option SliceData × SliceData)

  unfoldable pub with_path : BuilderData → Option SliceData → SliceData → Prefixed
  with_path path found key = do loaded ← load_builder sha256 path; ok (loaded, found, key)

  unfoldable pub prefix_leaf_loop :
      ℕ → SliceData → SliceData → ℕ → SliceData → BuilderData → Prefixed
  prefix_leaf_loop zero key cursor bit_len label path = panic
  prefix_leaf_loop (suc fuel) key cursor bit_len label path = do
    path' ← checked_append_references_and_data path label
    (_prefix, rem_label, rem_key) ← common_prefix label key
    elim rem_label [
      | some _ ↦ elim rem_key [
        | none ↦ (do nothing ← default_slice sha256; with_path path' none nothing)
        | some remainder ↦ with_path path' none remainder
      ]
      | none ↦ (do
        let key' : SliceData = elim rem_key [
          | some remainder ↦ remainder
          | none ↦ (shrink_data key unbounded (excluded 0)).0
        ]
        (cursor', leaf) ← pfx_is_leaf cursor
        elim leaf [
          | true ↦ with_path path' (some cursor') key'
          | false ↦ elim (is_empty key') [
            | true ↦ with_path path' none key'
            | false ↦ (do
              (key'', next_index) ← get_next_bit_int key'
              elim (is_broken cursor' bit_len label next_index) [
                | true ↦ with_path path' none key''
                | false ↦ (do
                  path'' ← append_bit_bool path' (next_index == 1)
                  child ← reference cursor' next_index
                  loaded ← load_cell child
                  let bit_len' = bit_len - (remaining_bits label + 1)
                  (next', label') ← slice_get_label sha256 loaded bit_len'
                  prefix_leaf_loop fuel key'' next' bit_len' label' path'')
              ])
          ]
        ])
    ]

  unfoldable pub get_prefix_leaf_with_gas : PfxHashmapE → SliceData → Prefixed
  get_prefix_leaf_with_gas m key = elim (if is_empty key then none else m.root) [
    | none ↦ (do nothing ← default_slice sha256; ok (nothing, none, key))
    | some root ↦ (do
      loaded ← load_cell root
      (cursor, label) ← slice_get_label sha256 loaded m.bit_len
      prefix_leaf_loop (m.bit_len + 1) key cursor m.bit_len label new)
  ]

  -- The second loop of `get_leaf_by_prefix`: down the left side to the first leaf.
  unfoldable pub first_leaf_loop :
      ℕ → SliceData → SliceData → ℕ → SliceData → BuilderData → Prefixed
  first_leaf_loop zero key cursor bit_len label path = panic
  first_leaf_loop (suc fuel) key cursor bit_len label path = do
    (cursor', leaf) ← pfx_is_leaf cursor
    elim leaf [
      | true ↦ with_path path (some cursor') key
      | false ↦ elim (leb (remaining_references cursor') 0) [
        | true ↦ with_path path none key
        | false ↦ (do
          path' ← append_bit_bool path false
          child ← reference cursor' 0
          loaded ← load_cell child
          elim (ltb bit_len (remaining_bits label + 1)) [
            | true ↦ with_path path' none key
            | false ↦ (do
              let bit_len' = bit_len - (remaining_bits label + 1)
              (next', label') ← slice_get_label sha256 loaded bit_len'
              path'' ← checked_append_references_and_data path' label'
              first_leaf_loop fuel key next' bit_len' label' path'')
          ])
      ]
    ]

  unfoldable pub leaf_by_prefix_loop :
      ℕ → SliceData → SliceData → ℕ → SliceData → BuilderData → Prefixed
  leaf_by_prefix_loop zero key cursor bit_len label path = panic
  leaf_by_prefix_loop (suc fuel) key cursor bit_len label path = do
    path' ← checked_append_references_and_data path label
    (_prefix, rem_label, rem_key) ← common_prefix label key
    elim rem_label [
      | some _ ↦ elim rem_key [
        | none ↦ (do
          nothing ← default_slice sha256
          first_leaf_loop (bit_len + 1) nothing cursor bit_len label path')
        | some remainder ↦ with_path path' none remainder
      ]
      | none ↦ (do
        let key' : SliceData = elim rem_key [
          | some remainder ↦ remainder
          | none ↦ (shrink_data key unbounded (excluded 0)).0
        ]
        (cursor', leaf) ← pfx_is_leaf cursor
        elim leaf [
          | true ↦ with_path path' (some cursor') key'
          | false ↦ (do
            (key'', next_index) ← get_next_bit_int key'
            elim (is_broken cursor' bit_len label next_index) [
              | true ↦ with_path path' none key''
              | false ↦ (do
                path'' ← append_bit_bool path' (next_index == 1)
                child ← reference cursor' next_index
                loaded ← load_cell child
                let bit_len' = bit_len - (remaining_bits label + 1)
                (next', label') ← slice_get_label sha256 loaded bit_len'
                leaf_by_prefix_loop fuel key'' next' bit_len' label' path'')
            ])
        ])
    ]

  unfoldable pub get_leaf_by_prefix : PfxHashmapE → SliceData → Prefixed
  get_leaf_by_prefix m key = elim (if is_empty key then none else m.root) [
    | none ↦ (do nothing ← default_slice sha256; ok (nothing, none, key))
    | some root ↦ (do
      loaded ← load_cell root
      (cursor, label) ← slice_get_label sha256 loaded m.bit_len
      leaf_by_prefix_loop (m.bit_len + 1) key cursor m.bit_len label new)
  ]
