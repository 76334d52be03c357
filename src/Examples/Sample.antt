-- ===== src/Examples/Sample.antt =====
-- A dictionary of two keys of three bits, 100 and 111, with values of four bits.
use ton_labs_types.Base.{
  ℕ, zero, suc, ◌≡◌, refl, ◌<◌, true, false, [], ◌∷◌, some, arith, inr, inl, get_elem?,
}
use ton_labs_types.Types.{ok}
use ton_labs_types.Bits.{to_bits, bytes_bits}
use ton_labs_types.Tag.{find_tag}
use ton_labs_types.Cell.Layout as Layout
use ton_labs_types.Cell.Data.{local}
use ton_labs_types.Cell.Tree.{Cell, data_cell, nil, cons}
use ton_labs_types.Cell.Tree as Tree
use ton_labs_types.Slice.{SliceData, load_cell, reference, remaining_references}
use ton_labs_types.Slice.Spec.{IsWindow}
use ton_labs_types.Dictionary.Trie.{Trie, leaf, fork, Value, Node, IsTree}
use ton_labs_types.Dictionary.Trie.Keys.{Key}

-- The label 0 or 1 of one bit, 0100 or 0101, and a value of four bits.
abbrev pub leaf_cell : ℕ → Cell
leaf_cell byte =
    data_cell (record { buf = local (0 ∷ 2 ∷ byte ∷ []); hashes_depths = (byte ∷ [], 0) ∷ [] }) nil
      8 1

-- The label 1 of one bit, 0101, and two references.
abbrev pub root : Cell
root =
    data_cell (record { buf = local (2 ∷ 1 ∷ 0x58 ∷ []); hashes_depths = (0x58 ∷ [], 1) ∷ [] })
      (cons (leaf_cell 0x4a) (cons (leaf_cell 0x5c) nil)) 20 3

abbrev pub whole : Cell → ℕ → ℕ → SliceData
whole cell n refs = record {
  cell = cell;
  data_start = 0;
  data_end = n;
  references_start = 0;
  references_end = refs;
}

abbrev pub value : ℕ → Value
value v = record { value_bits = to_bits 4 v; references = [] }

abbrev pub two_keys : Trie
two_keys = fork (true ∷ []) (leaf (false ∷ []) (value 0xa)) (leaf (true ∷ []) (value 0xc))

low-Node : Node (whole (leaf_cell 0x4a) 8 0) 1 (false ∷ []) (to_bits 4 0xa) []
unfolding Tree.data_bytes Layout.cell_data_len Layout.data_offset Layout.store_hashes
    Layout.hashes_count bytes_bits to_bits remaining_references
low-Node = record {
  window = record { ordered = omega arith; inside = omega arith; all_bytes = omega arith };
  refers = record { count = refl; found = λ i h. absurd (omega arith) };
  code = false ∷ true ∷ false ∷ false ∷ [];
  is_label = inr (inl refl);
  short = λ e. absurd (omega arith);
  spells = refl;
}

high-Node : Node (whole (leaf_cell 0x5c) 8 0) 1 (true ∷ []) (to_bits 4 0xc) []
unfolding Tree.data_bytes Layout.cell_data_len Layout.data_offset Layout.store_hashes
    Layout.hashes_count bytes_bits to_bits remaining_references
high-Node = record {
  window = record { ordered = omega arith; inside = omega arith; all_bytes = omega arith };
  refers = record { count = refl; found = λ i h. absurd (omega arith) };
  code = false ∷ true ∷ false ∷ true ∷ [];
  is_label = inr (inl refl);
  short = λ e. absurd (omega arith);
  spells = refl;
}

children :
    (i : ℕ)
    → i < 2
    → (c : Cell) × (get_elem? (leaf_cell 0x4a ∷ leaf_cell 0x5c ∷ []) i ≡ some c)
      × (reference (whole root 4 2) i ≡ ok c)
unfolding reference Tree.reference
children zero h = (leaf_cell 0x4a, refl, refl)
children (suc zero) h = (leaf_cell 0x5c, refl, refl)
children (suc (suc i)) h = absurd (omega arith)

pub root-Node : Node (whole root 4 2) 3 (true ∷ []) [] (leaf_cell 0x4a ∷ leaf_cell 0x5c ∷ [])
unfolding Tree.data_bytes Layout.cell_data_len Layout.data_offset Layout.store_hashes
    Layout.hashes_count bytes_bits to_bits remaining_references
root-Node = record {
  window = record { ordered = omega arith; inside = omega arith; all_bytes = omega arith };
  refers = record { count = refl; found = children };
  code = false ∷ true ∷ false ∷ true ∷ [];
  is_label = inr (inl refl);
  short = λ e. absurd (omega arith);
  spells = refl;
}

pub root_loads : load_cell root ≡ ok (whole root 4 2)
unfolding load_cell Layout.absent find_tag Layout.cell_data_len Layout.data_offset
    Layout.store_hashes Layout.hashes_count
root_loads = refl

low_loads : load_cell (leaf_cell 0x4a) ≡ ok (whole (leaf_cell 0x4a) 8 0)
unfolding load_cell Layout.absent
low_loads = refl

high_loads : load_cell (leaf_cell 0x5c) ≡ ok (whole (leaf_cell 0x5c) 8 0)
unfolding load_cell Layout.absent
high_loads = refl

pub root-IsTree : IsTree (whole root 4 2) 3 two_keys
root-IsTree = (
  leaf_cell 0x4a,
  leaf_cell 0x5c,
  root-Node,
  omega arith,
  (whole (leaf_cell 0x4a) 8 0, low_loads, (low-Node, refl)),
  (whole (leaf_cell 0x5c) 8 0, high_loads, (high-Node, refl)),
)

-- The bits 111 of a byte, and the bits 110 of another.
abbrev pub key_at : ℕ → ℕ → ℕ → SliceData
key_at byte from to = record {
  cell = leaf_cell byte;
  data_start = from;
  data_end = to;
  references_start = 0;
  references_end = 0;
}

key_at-IsWindow : IsWindow (key_at 0xee 0 3)
unfolding Tree.data_bytes Layout.cell_data_len Layout.data_offset Layout.store_hashes
    Layout.hashes_count
key_at-IsWindow = record { ordered = omega arith; inside = omega arith; all_bytes = omega arith }

pub key_at-Key : Key (key_at 0xee 0 3) 3
unfolding Tree.data_bytes Layout.cell_data_len Layout.data_offset Layout.store_hashes
    Layout.hashes_count bytes_bits to_bits remaining_references
key_at-Key = record { window = key_at-IsWindow; bare = refl; long = refl }

pub later-Key : Key (key_at 0xee 1 4) 3
unfolding Tree.data_bytes Layout.cell_data_len Layout.data_offset Layout.store_hashes
    Layout.hashes_count bytes_bits to_bits remaining_references
later-Key = record {
  window = record { ordered = omega arith; inside = omega arith; all_bytes = omega arith };
  bare = refl;
  long = refl;
}
