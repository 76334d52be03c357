-- ===== src/Dictionary/HashmapE.antt =====
-- src/dictionary/hashmap.rs: `HashmapE`, dictionaries of which all keys have `bit_len` bits. A method
-- with `&mut self` returns the new dictionary; on an error the old one stays. The methods with and
-- without a gas consumer are one definition.
use ton_labs_types.Base.{ℕ, ◌+◌, Bool, true, false, List, Option, none, some, ◌==◌, if◌then◌else◌}
use ton_labs_types.Types.{Result, ok, fail, cell_underflow, ◌>>=◌}
use ton_labs_types.Cell.Tree.{Cell}
use ton_labs_types.Builder.{BuilderData, new}
use ton_labs_types.Slice.{
  SliceData, remaining_bits, load_cell, shrink_data, shrink_references, shrink_by_remainder,
  excluded, included, unbounded,
}
use ton_labs_types.Slice.Transfer.{from_slice, checked_append_references_and_data, slice_into_cell}
use ton_labs_types.Dictionary.LabelReader.{slice_get_label}
use ton_labs_types.Dictionary.Kind.{hashmap_e, check_key_fail}
use ton_labs_types.Dictionary.Get.{Leaf, hashmap_get}
use ton_labs_types.Dictionary.Get as Get
use ton_labs_types.Dictionary.Put.{
  add_mode, replace_mode, hashmap_set_with_mode, hashmap_setref_with_mode,
}
use ton_labs_types.Dictionary.Remove.{hashmap_remove}
use ton_labs_types.Dictionary.Combine.{hashmap_split, hashmap_merge}

pub record HashmapE : Type 0 where
  pub bit_len : ℕ
  pub root : Option Cell

unfoldable pub with_hashmap : ℕ → Option Cell → HashmapE
with_hashmap bit_len root = record { bit_len = bit_len; root = root }

unfoldable pub with_bit_len : ℕ → HashmapE
with_bit_len bit_len = with_hashmap bit_len none

unfoldable pub is_empty : HashmapE → Bool
is_empty m = elim m.root [ none ↦ true | some _ ↦ false ]

unfoldable pub write_hashmap_root : HashmapE → BuilderData → Result BuilderData
write_hashmap_root m builder = elim m.root [
  | some root ↦ (do loaded ← load_cell root; checked_append_references_and_data builder loaded)
  | none ↦ fail cell_underflow
]

-- What a change leaves: the value that was there, and the dictionary.
abbrev pub Changed : Type 0
Changed = Result (Option SliceData × HashmapE)

-- The dictionary with its new root.
unfoldable pub with_root : HashmapE → Result (Option SliceData × Option Cell) → Changed
with_root m outcome = do (found, root) ← outcome; ok (found, record m { root = root })

module _ (sha256 : List ℕ → List ℕ) where
  -- A root that is a leaf takes the whole slice, a fork its label and two references. The slice that
  -- is left, and the dictionary.
  unfoldable pub read_hashmap_root : HashmapE → SliceData → Result (SliceData × HashmapE)
  read_hashmap_root m slice = do
    (rest, label) ← slice_get_label sha256 slice m.bit_len
    elim (remaining_bits label == m.bit_len) [
      | false ↦ (do
        (rest', _refs) ← shrink_references rest (included 2) unbounded
        root ← slice_into_cell sha256 (shrink_by_remainder slice rest')
        ok (rest', record m { root = some root }))
      | true ↦ (do
        (rest', _refs) ←
            shrink_references (shrink_data rest unbounded (excluded 0)).0 unbounded (excluded 0)
        root ← slice_into_cell sha256 slice
        ok (rest', record m { root = some root }))
    ]

  unfoldable pub get : HashmapE → SliceData → Leaf
  get m key = hashmap_get sha256 hashmap_e m.root m.bit_len key

  -- The value is a builder, or a slice that is copied to one.
  unfoldable pub put_builder : ℕ → HashmapE → SliceData → BuilderData → Changed
  put_builder mode m key value =
      with_root m (hashmap_set_with_mode sha256 hashmap_e value mode m.root m.bit_len key)

  unfoldable pub set_builder : HashmapE → SliceData → BuilderData → Changed
  set_builder = put_builder (add_mode + replace_mode)

  unfoldable pub replace_builder : HashmapE → SliceData → BuilderData → Changed
  replace_builder = put_builder replace_mode

  unfoldable pub add_builder : HashmapE → SliceData → BuilderData → Changed
  add_builder = put_builder add_mode

  unfoldable pub set : HashmapE → SliceData → SliceData → Changed
  set m key value = do builder ← from_slice value; set_builder m key builder

  unfoldable pub replace : HashmapE → SliceData → SliceData → Changed
  replace m key value = do builder ← from_slice value; replace_builder m key builder

  unfoldable pub add : HashmapE → SliceData → SliceData → Changed
  add m key value = do builder ← from_slice value; add_builder m key builder

  unfoldable pub put_reference : ℕ → HashmapE → SliceData → Cell → Changed
  put_reference mode m key value =
      with_root m (hashmap_setref_with_mode sha256 hashmap_e value mode m.root m.bit_len key)

  unfoldable pub setref : HashmapE → SliceData → Cell → Changed
  setref = put_reference (add_mode + replace_mode)

  unfoldable pub replaceref : HashmapE → SliceData → Cell → Changed
  replaceref = put_reference replace_mode

  unfoldable pub addref : HashmapE → SliceData → Cell → Changed
  addref = put_reference add_mode

  unfoldable pub remove : HashmapE → SliceData → Changed
  remove m key = with_root m (hashmap_remove sha256 hashmap_e m.root m.bit_len key)

  -- A leaf that was found, with its path.
  abbrev pub Found : Type 0
  Found = Result (Option (BuilderData × SliceData))

  unfoldable pub with_path : Result (BuilderData × Option SliceData) → Found
  with_path outcome = do
    (path, found) ← outcome
    ok (elim found [ some value ↦ some (path, value) | none ↦ none ])

  unfoldable pub find_leaf : HashmapE → SliceData → Bool → Bool → Bool → Found
  find_leaf m key next' eq signed_int = check_key_fail hashmap_e m.bit_len key (elim m.root [
    | none ↦ ok none
    | some root ↦ with_path (
        Get.find_leaf sha256 hashmap_e root new m.bit_len key (if next' then 0 else 1) eq
          signed_int)
  ])

  -- The side of all steps, and that of the first, on which the sign bit stands.
  unfoldable pub sides : Bool → Bool → ℕ × ℕ
  sides true true = (0, 1)
  sides true false = (0, 0)
  sides false true = (1, 0)
  sides false false = (1, 1)

  unfoldable pub get_min_max : HashmapE → Bool → Bool → Found
  get_min_max m min signed =
      let (next_index, index) = sides min signed in
      elim m.root [
        | none ↦ ok none
        | some root ↦
            with_path (Get.get_min_max sha256 hashmap_e root new m.bit_len next_index index)
      ]

  unfoldable pub get_min : HashmapE → Bool → Found
  get_min m signed = get_min_max m true signed

  unfoldable pub get_max : HashmapE → Bool → Found
  get_max m signed = get_min_max m false signed

  unfoldable pub split : HashmapE → SliceData → Result (HashmapE × HashmapE)
  split m key = do
    (left, right) ← hashmap_split sha256 hashmap_e m.root m.bit_len key
    ok (with_hashmap m.bit_len left, with_hashmap m.bit_len right)

  unfoldable pub merge : HashmapE → HashmapE → SliceData → Result HashmapE
  merge m other key = do
    root ← hashmap_merge sha256 hashmap_e m.root m.bit_len other.root other.bit_len key
    ok (record m { root = root })
