-- ===== src/Examples/Slices.antt =====
-- The slice's theorems at a window of 18 bits that starts within a byte.
use ton_labs_types.Base.{
  ℕ, ◌*◌, ◌%◌, ◌^◌, ◌≡◌, refl, List, [], ◌∷◌, ◌++◌, arith, length, take, drop,
}
use ton_labs_types.Types.{ok}
use ton_labs_types.Bits.{to_bits, bytes_bits}
use ton_labs_types.Builder.{BuilderData}
use ton_labs_types.Cell.Layout.{cell_data_len, data_offset, store_hashes, hashes_count}
use ton_labs_types.Cell.Data.{local}
use ton_labs_types.Cell.Tree.{Cell, data_cell, nil}
use ton_labs_types.Cell.Tree as Tree
use ton_labs_types.Slice.{
  SliceData, move_by, trim_right, get_next_slice, remaining_references, references_from, reference,
}
use ton_labs_types.Slice.Spec.{bits, IsWindow}
use ton_labs_types.Slice.Bits.{Reads, get_bits-Reads}
use ton_labs_types.Slice.Reading.{get_bits, get_next_int, get_bytestring}
use ton_labs_types.Slice.Integers.{ReadsNext, get_next_int-ReadsNext}
use ton_labs_types.Slice.Window.{get_next_slice-bits}
use ton_labs_types.Slice.Transfer.{remaining_data, load_builder}
use ton_labs_types.Slice.Trim.{Trims, trim_right-Trims}
use ton_labs_types.Slice.Whole.{Refers, SliceOutcome, append_slice-outcome}
use ton_labs_types.Slice.Bytes.{Starts, get_bytestring-Starts}
use ton_labs_types.Examples.Sample.{leaf_cell, root, whole, root-Node}
use ton_labs_types.Builder.Operations.{append_bits}
use ton_labs_types.Slice.ReadBack.{get_next_int-append_bits}
use ton_labs_types.Examples.Sealed.{first_bytes}
use ton_labs_types.Examples.Builders.{thirteen, thirteen-IsValid}
use ton_labs_types.Slice.Remaining.{Holds, remaining_data-Holds}

-- A cell with these whole bytes, no references, and no hashes.
abbrev pub cell_of : List ℕ → Cell
cell_of bytes =
    data_cell (record { buf = local (0 ∷ (2 * length bytes) ∷ bytes); hashes_depths = [] }) nil 0 1

abbrev window : SliceData
window = record {
  cell = cell_of (0xde ∷ 0xad ∷ 0xbe ∷ []);
  data_start = 3;
  data_end = 21;
  references_start = 0;
  references_end = 0;
}

window-IsWindow : IsWindow window
unfolding Tree.data_bytes cell_data_len data_offset store_hashes hashes_count
window-IsWindow = record { ordered = omega arith; inside = omega arith; all_bytes = omega arith }

no_references : references_from window 0 (remaining_references window) ≡ ok []
unfolding references_from remaining_references
no_references = refl

window_spells : bits window ≡ to_bits 12 0xf56 ++ to_bits 6 0x37
unfolding Tree.data_bytes bytes_bits to_bits cell_data_len data_offset store_hashes hashes_count
window_spells = refl

get_bits-Reads_example : Reads 7 (take 7 (drop 4 (bits window))) (get_bits window 4 7)
get_bits-Reads_example =
    get_bits-Reads window 4 7 window-IsWindow (omega arith) (omega arith) (omega arith)

get_next_int-ReadsNext_example : ReadsNext window 13 (get_next_int window 13)
get_next_int-ReadsNext_example =
    get_next_int-ReadsNext window window-IsWindow 13 (omega arith) (omega arith) (omega arith)

get_next_int-append_bits_example :
    (b' : BuilderData) × (s : SliceData) × (s' : SliceData) × (s'' : SliceData) × (append_bits
        thirteen 0x5a5 11
      ≡ ok b')
    × (load_builder first_bytes b' ≡ ok s)
    × (move_by s 13 ≡ ok s')
    × (get_next_int s' 11 ≡ ok (s'', 0x5a5 % 2 ^ 11))
    × (bits s'' ≡ [])
get_next_int-append_bits_example =
    get_next_int-append_bits first_bytes thirteen 0 thirteen-IsValid refl refl (omega arith) tt
      0x5a5 11 (omega arith) (omega arith) (omega arith)

root_references :
    references_from (whole root 4 2) 0 (remaining_references (whole root 4 2))
    ≡ ok (leaf_cell 0x4a ∷ leaf_cell 0x5c ∷ [])
unfolding references_from remaining_references reference
root_references = refl

get_next_slice-bits_example :
    (t : SliceData) × (rest : SliceData) × (get_next_slice (whole root 4 2) 3 ≡ ok (rest, t))
    × (bits (whole root 4 2) ≡ bits t ++ bits rest)
    × (length (bits t) ≡ 3)
    × (remaining_references t ≡ 0)
    × IsWindow rest
    × (references_from rest 0 (remaining_references rest)
        ≡ ok (leaf_cell 0x4a ∷ leaf_cell 0x5c ∷ []))
get_next_slice-bits_example =
    get_next_slice-bits (whole root 4 2) root-Node.window (leaf_cell 0x4a ∷ leaf_cell 0x5c ∷ [])
      root_references 3 (omega arith)

remaining_data-Holds_example : (b : BuilderData) × (remaining_data window ≡ ok b) × Holds window b
remaining_data-Holds_example = remaining_data-Holds window window-IsWindow (omega arith)

get_bytestring-Starts_example :
    (xs : List ℕ) × (get_bytestring window 3 ≡ ok xs) × Starts (drop 3 (bits window)) xs
get_bytestring-Starts_example = get_bytestring-Starts window window-IsWindow 3

window-Refers : Refers window []
unfolding remaining_references
window-Refers = record { count = refl; found = λ i h. absurd (omega arith) }

append_slice-outcome_example : SliceOutcome window [] window-Refers thirteen
append_slice-outcome_example =
    append_slice-outcome window [] window-Refers window-IsWindow thirteen thirteen-IsValid

trim_right-Trims_example : Trims window window-IsWindow (trim_right window)
trim_right-Trims_example = trim_right-Trims window window-IsWindow
