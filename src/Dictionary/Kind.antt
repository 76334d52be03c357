-- ===== src/Dictionary/Kind.antt =====
-- src/dictionary/mod.rs: the trait `HashmapType`, in which the two kinds of dictionaries differ, with
-- its methods that make cells; src/dictionary/hashmap.rs and src/dictionary/pfxhashmap.rs: its two
-- implementations. A node's edge carries a label; a leaf's value and a fork's references follow it,
-- in a `PfxHashmapE` behind a bit that is 1 for a fork. A method that reads from a slice returns it.
use ton_labs_types.Base.{ℕ, ◌+◌, Bool, true, false, not, ◌&&◌, List, leb, ltb, ◌==◌, if◌then◌else◌}
use ton_labs_types.Types.{Result, ok, err, panic, message, ◌>>=◌}
use ton_labs_types.Cell.Tree.{Cell}
use ton_labs_types.Builder.{BuilderData, new, checked_append_reference}
use ton_labs_types.Builder.Operations.{
  append_builder, append_bit_bool, append_bit_one, append_bit_zero,
}
use ton_labs_types.Slice.{SliceData, remaining_bits, remaining_references, is_empty}
use ton_labs_types.Slice.Reading.{get_next_bit}
use ton_labs_types.Slice.Transfer.{checked_append_references_and_data, from_slice, load_builder}
use ton_labs_types.Dictionary.Label.{hm_label}
use ton_labs_types.Dictionary.LabelReader.{less, slice_get_label_raw}

pub record HashmapType : Type 0 where
  pub check_key : ℕ → SliceData → Bool
  pub is_fork : SliceData → Result (SliceData × Bool)
  pub is_leaf : SliceData → Result (SliceData × Bool)
  pub make_cell_with_label : SliceData → ℕ → Result BuilderData
  pub make_cell_with_label_and_data : SliceData → ℕ → Bool → SliceData → Result BuilderData
  pub make_cell_with_label_and_builder : SliceData → ℕ → Bool → BuilderData → Result BuilderData
  pub fork_remainder : Result BuilderData

-- `check_key_fail`, before `rest`.
unfoldable pub check_key_fail {ℓ} : {A : Type ℓ} → HashmapType → ℕ → SliceData → Result A → Result A
check_key_fail T bit_len key rest =
    if not (is_empty key) && T.check_key bit_len key then rest else err message

unfoldable pub make_cell_with_remainder :
    HashmapType → SliceData → ℕ → SliceData → Result BuilderData
make_cell_with_remainder T key max remainder = do
  builder ← T.make_cell_with_label key max
  checked_append_references_and_data builder remainder

module _ (sha256 : List ℕ → List ℕ) (T : HashmapType) where
  -- The references of a fork stand behind what `fork_remainder` starts with.
  unfoldable pub make_fork : SliceData → ℕ → Cell → Cell → Bool → Result (BuilderData × SliceData)
  make_fork key bit_len left right swap = do
    builder ← hm_label key bit_len
    remainder ← T.fork_remainder
    remainder' ← checked_append_reference remainder (if swap then right else left)
    remainder'' ← checked_append_reference remainder' (if swap then left else right)
    builder' ← append_builder builder remainder''
    loaded ← load_builder sha256 remainder''
    ok (builder', loaded)

  -- A node that continues `key` with a bit and with the label of `next`.
  unfoldable pub make_edge : SliceData → ℕ → Bool → SliceData → Result BuilderData
  make_edge key bit_len is_left next = do
    next_bit_len ← less bit_len (remaining_bits key + 1)
    label ← from_slice key
    label' ← append_bit_bool label (not is_left)
    (next', _max, label'') ← slice_get_label_raw next next_bit_len label'
    (next'', is_leaf) ← T.is_leaf next'
    loaded ← load_builder sha256 label''
    T.make_cell_with_label_and_data loaded bit_len is_leaf next''

-- `make_leaf` of the trait and of `PfxHashmapE`, which puts its bit last.
unfoldable pub make_leaf : SliceData → ℕ → SliceData → Result BuilderData
make_leaf key bit_len value = do
  builder ← hm_label key bit_len
  checked_append_references_and_data builder value

unfoldable pub make_pfx_leaf : SliceData → ℕ → SliceData → Result BuilderData
make_pfx_leaf key bit_len value = do
  builder ← hm_label key bit_len
  builder' ← checked_append_references_and_data builder value
  append_bit_zero builder'

-- `HashmapE`: keys of `bit_len` bits.
unfoldable pub e_check_key : ℕ → SliceData → Bool
e_check_key bit_len key = bit_len == remaining_bits key

unfoldable pub e_is_fork : SliceData → Result (SliceData × Bool)
e_is_fork s = ok (s, ltb 1 (remaining_references s))

unfoldable pub e_is_leaf : SliceData → Result (SliceData × Bool)
e_is_leaf s = ok (s, true)

unfoldable pub e_make_cell_with_label_and_data :
    SliceData → ℕ → Bool → SliceData → Result BuilderData
e_make_cell_with_label_and_data key max _is_leaf value = do
  builder ← hm_label key max
  checked_append_references_and_data builder value

unfoldable pub e_make_cell_with_label_and_builder :
    SliceData → ℕ → Bool → BuilderData → Result BuilderData
e_make_cell_with_label_and_builder key max _is_leaf value = do
  builder ← hm_label key max
  append_builder builder value

abbrev pub hashmap_e : HashmapType
hashmap_e = record {
  check_key = e_check_key;
  is_fork = e_is_fork;
  is_leaf = e_is_leaf;
  make_cell_with_label = hm_label;
  make_cell_with_label_and_data = e_make_cell_with_label_and_data;
  make_cell_with_label_and_builder = e_make_cell_with_label_and_builder;
  fork_remainder = ok new;
}

-- `PfxHashmapE`: keys of at most `bit_len` bits.
unfoldable pub pfx_check_key : ℕ → SliceData → Bool
pfx_check_key bit_len key = leb (remaining_bits key) bit_len

unfoldable pub pfx_make_cell_with_label : SliceData → ℕ → Result BuilderData
pfx_make_cell_with_label key max = do builder ← hm_label key max; append_bit_one builder

unfoldable pub pfx_make_cell_with_label_and_data :
    SliceData → ℕ → Bool → SliceData → Result BuilderData
pfx_make_cell_with_label_and_data key max is_leaf value = do
  builder ← hm_label key max
  builder' ← append_bit_bool builder (not is_leaf)
  checked_append_references_and_data builder' value

unfoldable pub pfx_make_cell_with_label_and_builder :
    SliceData → ℕ → Bool → BuilderData → Result BuilderData
pfx_make_cell_with_label_and_builder key max is_leaf value = do
  builder ← hm_label key max
  builder' ← append_bit_bool builder (not is_leaf)
  append_builder builder' value

unfoldable pub pfx_is_fork : SliceData → Result (SliceData × Bool)
pfx_is_fork s = do (s', bit) ← get_next_bit s; ok (s', bit && ltb 1 (remaining_references s'))

-- A failure of `get_next_bit` is no leaf.
unfoldable pub pfx_is_leaf : SliceData → Result (SliceData × Bool)
pfx_is_leaf s = if is_empty s then ok (s, false) else elim (get_next_bit s) [
  | ok (s', bit) ↦ ok (s', not bit)
  | err _ ↦ ok (s, false)
  | panic ↦ panic
]

abbrev pub pfx_hashmap_e : HashmapType
pfx_hashmap_e = record {
  check_key = pfx_check_key;
  is_fork = pfx_is_fork;
  is_leaf = pfx_is_leaf;
  make_cell_with_label = pfx_make_cell_with_label;
  make_cell_with_label_and_data = pfx_make_cell_with_label_and_data;
  make_cell_with_label_and_builder = pfx_make_cell_with_label_and_builder;
  fork_remainder = append_bit_one new;
}
