-- ===== src/Examples/Dictionaries.antt =====
-- The theorems on dictionaries at the dictionary of `Sample`, and at one that is made here.
use ton_labs_types.Slice.Transfer
use ton_labs_types.Slice.Reading
use ton_labs_types.Slice.Prefix
use ton_labs_types.Slice
use ton_labs_types.Dictionary.Walk
use ton_labs_types.Dictionary.Remove
use ton_labs_types.Dictionary.Put
use ton_labs_types.Dictionary.LabelReader
use ton_labs_types.Dictionary.Kind
use ton_labs_types.Dictionary.Get
use ton_labs_types.Dictionary.Filter
use ton_labs_types.Cell.Finalize
use ton_labs_types.Builder.Operations
use ton_labs_types.Builder
use ton_labs_types.Base.{
  ℕ, ◌≡◌, refl, ◌<◌, ◌≤◌, true, false, [], ◌∷◌, none, some, arith, if◌then◌else◌, ◌==◌, ◌+◌,
}
use ton_labs_types.Types.{Result, ok}
use ton_labs_types.Bits.{to_bits, bytes_bits}
use ton_labs_types.Bits.Common.{common}
use ton_labs_types.Cell.Layout as Layout
use ton_labs_types.Cell.Tree.{Cell}
use ton_labs_types.Cell.Tree as Tree
use ton_labs_types.Slice.{SliceData, load_cell, remaining_references, references_from}
use ton_labs_types.Slice.Spec.{bits, IsWindow}
use ton_labs_types.Slice.Prefix.{common_prefix, erase_prefix}
use ton_labs_types.Slice.Prefix.Splits.{SplitsAt, common_prefix-SplitsAt}
use ton_labs_types.Slice.Prefix.Erase.{Erases, erase_prefix-Erases}
use ton_labs_types.Dictionary.Kind.{hashmap_e}
use ton_labs_types.Dictionary.Get.{hashmap_get}
use ton_labs_types.Dictionary.Trie.{Found, find}
use ton_labs_types.Dictionary.Trie.Absent.{hashmap_remove-absent}
use ton_labs_types.Dictionary.Trie.Last.{hashmap_remove-hashmap_set_with_mode}
use ton_labs_types.Slice.Whole.{Refers}
use ton_labs_types.Dictionary.Trie.Leaf.{value_of, Holds, hashmap_get-hashmap_set_with_mode}
use ton_labs_types.Dictionary.Label.Width.{width}
use ton_labs_types.Slice.Reading.{significant_bits}
use ton_labs_types.Builder.Spec.{IsValid}
use ton_labs_types.Dictionary.Trie.Lookup.{hashmap_get-Found}
use ton_labs_types.Dictionary.Trie.Keys.{Key}
use ton_labs_types.Builder.{BuilderData, new}
use ton_labs_types.Dictionary.Walk.{hashmap_count}
use ton_labs_types.Dictionary.Walk.Bounds.{hashmap_count-bounded}
use ton_labs_types.Dictionary.Remove.{remove_node, hashmap_remove}
use ton_labs_types.Dictionary.Put.{put_to_node_with_mode, hashmap_set_with_mode}
use ton_labs_types.Dictionary.Filter.{
  filter_next, Filtered, HashmapFilterResult, cancel, accept, remove,
}
use ton_labs_types.Dictionary.Unchanged.{
  remove_node-none, put_to_node-refused, filter_next-cancelled,
}
use ton_labs_types.Examples.Sealed.{first_bytes}
use ton_labs_types.Examples.Sample.{
  root, whole, value, two_keys, root_loads, root-IsTree, key_at, key_at-Key, later-Key,
}

hashmap_get-Found_example :
    Found
      (find two_keys (bits (key_at 0xee 0 3)))
      (hashmap_get first_bytes hashmap_e (some root) 3 (key_at 0xee 0 3))
hashmap_get-Found_example =
    hashmap_get-Found first_bytes two_keys root (whole root 4 2) 3 root_loads root-IsTree
      (omega arith) (omega arith) (key_at 0xee 0 3) key_at-Key

find_runs : find two_keys (true ∷ true ∷ true ∷ []) ≡ some (value 0xc)
find_runs = refl

byte_at-IsWindow :
    (from to : ℕ) → from ≤ to → to ≤ 8 → (byte : ℕ) → byte < 256 → IsWindow (key_at byte from to)
unfolding Tree.data_bytes Layout.cell_data_len Layout.data_offset Layout.store_hashes
    Layout.hashes_count
byte_at-IsWindow from to h h' byte small = record {
  ordered = h;
  inside = omega arith;
  all_bytes = (small, tt);
}

no_references :
    (byte from to : ℕ)
    → references_from (key_at byte from to) 0 (remaining_references (key_at byte from to)) ≡ ok []
unfolding references_from remaining_references
no_references byte from to = refl

bare : (byte from to : ℕ) → remaining_references (key_at byte from to) ≡ 0
unfolding remaining_references
bare byte from to = refl

common_prefix-SplitsAt_example :
    SplitsAt
      (key_at 0xee 0 8)
      (key_at 0x3b 2 8)
      (common (bits (key_at 0xee 0 8)) (bits (key_at 0x3b 2 8)))
      (common_prefix (key_at 0xee 0 8) (key_at 0x3b 2 8))
common_prefix-SplitsAt_example =
    common_prefix-SplitsAt (key_at 0xee 0 8) (key_at 0x3b 2 8)
      (byte_at-IsWindow 0 8 (omega arith) (omega arith) 0xee (omega arith))
      (byte_at-IsWindow 2 8 (omega arith) (omega arith) 0x3b (omega arith)) [] []
      (no_references 0xee 0 8) (no_references 0x3b 2 8)

erase_prefix-Erases_example :
    Erases (key_at 0xee 0 8) (key_at 0x3b 2 4) (erase_prefix (key_at 0xee 0 8) (key_at 0x3b 2 4))
erase_prefix-Erases_example =
    erase_prefix-Erases (key_at 0xee 0 8) (key_at 0x3b 2 4)
      (byte_at-IsWindow 0 8 (omega arith) (omega arith) 0xee (omega arith))
      (byte_at-IsWindow 2 4 (omega arith) (omega arith) 0x3b (omega arith)) (bare 0xee 0 8)
      (bare 0x3b 2 4) [] [] (no_references 0xee 0 8) (no_references 0x3b 2 4)

count_runs : hashmap_count hashmap_e (some root) 3 5 ≡ ok 2
unfolding Finalize.hash_loop Builder.with_bitstring Slice.load_cell Slice.remaining_references
    Slice.references_from Slice.is_empty Reading.get_next_bit LabelReader.new_reader
    LabelReader.with_cell LabelReader.less LabelReader.count_ones LabelReader.unary
    LabelReader.read_up_to LabelReader.reader_reference LabelReader.skip_label Kind.e_is_fork
    Get.reader_is_fork Get.next_reader Walk.skip_key Walk.count_loop Walk.count_internal
    Walk.hashmap_count
count_runs = refl

hashmap_count-bounded_example : 2 ≤ 5
hashmap_count-bounded_example = hashmap_count-bounded hashmap_e (some root) 3 5 2 count_runs

removes_nothing :
    remove_node first_bytes hashmap_e (some root) 3 (key_at 0 0 3) ≡ ok (none, some root)
unfolding Finalize.hash_loop Builder.with_bitstring Slice.load_cell Slice.shrink_data
    Slice.references_from Slice.shrink_references Slice.is_empty Reading.get_next_size
    Reading.get_next_bytes Reading.get_next_dictionary Prefix.shared_bytes Prefix.leading_zeros
    Prefix.shared_bits Prefix.nonempty Prefix.split_at_prefix Prefix.common_prefix
    LabelReader.new_reader LabelReader.less LabelReader.count_ones LabelReader.unary
    LabelReader.cut_label LabelReader.get_label_short LabelReader.read_up_to LabelReader.remainder
    LabelReader.get_label LabelReader.slice_get_label Remove.remove_loop Remove.remove_node
removes_nothing = refl

remove_node-none_example : some root ≡ some root
remove_node-none_example =
    remove_node-none first_bytes hashmap_e (some root) (some root) 3 (key_at 0 0 3) removes_nothing

-- A put with the mode `REPLACE` alone.
puts_nothing :
    put_to_node_with_mode first_bytes hashmap_e new 2 root 3 (key_at 0 0 3) ≡ ok (none, root)
unfolding Finalize.hash_loop Builder.with_bitstring Slice.load_cell Slice.shrink_data
    Slice.references_from Slice.shrink_references Slice.is_empty Reading.get_next_size
    Reading.get_next_bytes Reading.get_next_dictionary Prefix.same_slice Prefix.shared_bytes
    Prefix.leading_zeros Prefix.shared_bits Prefix.nonempty Prefix.split_at_prefix
    Prefix.common_prefix LabelReader.new_reader LabelReader.less LabelReader.count_ones
    LabelReader.unary LabelReader.cut_label LabelReader.get_label_short LabelReader.read_up_to
    LabelReader.remainder LabelReader.get_label LabelReader.slice_get_label Put.add_mode
    Put.mode_bit Put.put_loop Put.put_to_node_with_mode
puts_nothing = refl

put_to_node-refused_example : root ≡ root
unfolding Put.mode_bit Put.add_mode
put_to_node-refused_example =
    put_to_node-refused first_bytes hashmap_e new 2 root root 3 (key_at 0 0 3) none puts_nothing
      refl

-- The first leaf is removed, and the second one cancels.
abbrev cancels : ℕ → BuilderData → SliceData → Result (ℕ × HashmapFilterResult)
cancels state key cursor = ok (state + 1, if state == 0 then remove else cancel)

abbrev cancelled : Filtered ℕ
cancelled = record {
  state = 2;
  cell_opt = some root;
  key = record new { bytes = 0x80 ∷ []; length_in_bits = 1 };
  result = cancel;
  removed = false;
  remainder = none;
}

filter_runs : filter_next first_bytes hashmap_e cancels 4 (some root) new 3 accept 0 ≡ ok cancelled
unfolding Finalize.hash_loop Builder.clear_low Builder.with_bitstring Builder.with_slice_shifting
    Builder.shifted_bytes Builder.trimmed Builder.with_double_shifting Builder.checked
    Builder.append_shifting Builder.append_raw Operations.append_bit_bool Slice.load_cell
    Slice.shrink_data Slice.references_from Slice.shrink_references Slice.is_empty
    Reading.get_next_bytes Reading.bytestring_loop Reading.get_bytestring
    Reading.get_next_dictionary Transfer.append_bytestring LabelReader.new_reader LabelReader.less
    LabelReader.count_ones LabelReader.unary LabelReader.cut_label LabelReader.get_label_short
    LabelReader.read_up_to LabelReader.remainder LabelReader.get_label_raw
    LabelReader.slice_get_label_raw Filter.left_alone Filter.decided Filter.filter_leaf
    Filter.filter_fork Filter.filter_next
filter_runs = refl

filter_next-cancelled_example : some root ≡ some root
filter_next-cancelled_example =
    filter_next-cancelled first_bytes hashmap_e cancels 4 (some root) new 3 accept 0 cancelled
      filter_runs refl

abbrev four_bits : BuilderData
four_bits = record new { bytes = 0xc0 ∷ []; length_in_bits = 4 }

four_bits-IsValid : IsValid four_bits
four_bits-IsValid = record {
  covered = omega arith;
  in_capacity = omega arith;
  stored = omega arith;
  all_bytes = (omega arith, tt);
  few_references = omega arith;
}

leaves_room : 2 + width 3 + 3 + 4 ≤ 1023
unfolding significant_bits
leaves_room = omega arith

hashmap_get-hashmap_set_with_mode_example :
    (c : Cell) × (hashmap_set_with_mode first_bytes hashmap_e four_bits 1 none 3 (key_at 0xee 0 3)
      ≡ ok (none, some c))
    × Holds
        (bits (key_at 0xee 0 3))
        (value_of four_bits)
        (bits (key_at 0xee 1 4))
        (hashmap_get first_bytes hashmap_e (some c) 3 (key_at 0xee 1 4))
unfolding Put.mode_bit Put.add_mode
hashmap_get-hashmap_set_with_mode_example =
    hashmap_get-hashmap_set_with_mode first_bytes (key_at 0xee 0 3) 3 key_at-Key (omega arith)
      four_bits four_bits-IsValid 0 (omega arith) tt leaves_room 1 refl (key_at 0xee 1 4) later-Key

-- The key 000, which is not in the tree.
absent-Key : Key (key_at 0 0 3) 3
unfolding Tree.data_bytes Layout.cell_data_len Layout.data_offset Layout.store_hashes
    Layout.hashes_count bytes_bits to_bits remaining_references
absent-Key = record {
  window = record { ordered = omega arith; inside = omega arith; all_bytes = omega arith };
  bare = refl;
  long = refl;
}

finds_nothing : find two_keys (bits (key_at 0 0 3)) ≡ none
unfolding Tree.data_bytes Layout.cell_data_len Layout.data_offset Layout.store_hashes
    Layout.hashes_count bytes_bits to_bits
finds_nothing = refl

hashmap_remove-absent_example :
    hashmap_remove first_bytes hashmap_e (some root) 3 (key_at 0 0 3) ≡ ok (none, some root)
hashmap_remove-absent_example =
    hashmap_remove-absent first_bytes two_keys root (whole root 4 2) 3 root_loads root-IsTree
      (omega arith) (omega arith) (key_at 0 0 3) absent-Key finds_nothing

hashmap_remove-hashmap_set_with_mode_example :
    (c : Cell) × (cursor : SliceData) × (hashmap_set_with_mode first_bytes hashmap_e four_bits 1
        none 3
        (key_at 0xee 0 3)
      ≡ ok (none, some c))
    × (hashmap_remove first_bytes hashmap_e (some c) 3 (key_at 0xee 0 3) ≡ ok (some cursor, none))
    × (bits cursor ≡ (value_of four_bits).value_bits)
    × IsWindow cursor
    × Refers cursor []
unfolding Put.mode_bit Put.add_mode
hashmap_remove-hashmap_set_with_mode_example =
    hashmap_remove-hashmap_set_with_mode first_bytes (key_at 0xee 0 3) 3 key_at-Key (omega arith)
      four_bits four_bits-IsValid 0 (omega arith) tt leaves_room 1 refl
