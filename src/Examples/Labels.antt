-- ===== src/Examples/Labels.antt =====
-- The labels of the key 10 in a dictionary with at most five bits left.
use ton_labs_types.Base.{◌≡◌, refl, List, [], ◌∷◌, ◌++◌, Bool, true, false, arith, inr, inl}
use ton_labs_types.Types.{ok, fail, cell_underflow}
use ton_labs_types.Bits.{to_bits, bytes_bits}
use ton_labs_types.Builder.{
  BuilderData, new, with_raw, append_raw, append_shifting, with_double_shifting, trimmed,
  shifted_bytes, checked, clear_low, cut_bytes, with_slice_shifting, without_shifting,
}
use ton_labs_types.Builder.Operations.{
  append_bits, top_bits, append_bit_bool, append_bit_zero, be_bytes,
}
use ton_labs_types.Slice.Transfer.{append_bytestring}
use ton_labs_types.Cell.Layout.{cell_data_len, data_offset, store_hashes, hashes_count}
use ton_labs_types.Cell.Tree as Tree
use ton_labs_types.Cell.Data as Data
use ton_labs_types.Cell.Layout as Layout
use ton_labs_types.Cell.CellType.{ordinary}
use ton_labs_types.Slice.Overwrite.{overwrite_prefix-bits}
use ton_labs_types.Slice.Transfer.{overwrite_prefix}
use ton_labs_types.Base.{length, drop}
use ton_labs_types.Slice.{
  SliceData, references_from, remaining_references, is_empty, remaining_bits, data_at, get_bit_opt,
  get_bit, move_by, shrink_data, shrink_references,
}
use ton_labs_types.Slice.Reading.{
  get_next_bit, significant_bits, get_bytestring, bytestring_loop, get_bits, get_byte, two_bytes,
}
use ton_labs_types.Slice.Spec.{bits, IsWindow}
use ton_labs_types.Dictionary.Label.{
  hm_label, hml_long, append_ones, choose, hml_same, hml_short, same_label, scan_same,
}
use ton_labs_types.Dictionary.Label.Spec.{short_code}
use ton_labs_types.Dictionary.Label.Written.{Written}
use ton_labs_types.Dictionary.Label.Spec.{IsShortestLabel}
use ton_labs_types.Dictionary.Label.Shortest.{hm_label-IsShortest}
use ton_labs_types.Dictionary.LabelReader.{
  get_label, new_reader, skip_label, unary, count_ones, get_label_short, less, cut_label,
}
use ton_labs_types.Dictionary.LabelReader.Parts.{HasReferences}
use ton_labs_types.Dictionary.LabelReader.Reads.{ReadsLabel}
use ton_labs_types.Dictionary.LabelReader.RoundTrip.{get_label-ReadsLabel, get_label-hm_label}
use ton_labs_types.Dictionary.LabelReader.{get_label_raw}
use ton_labs_types.Dictionary.LabelReader.Raw.{ReadsRaw, get_label_raw-ReadsRaw}
use ton_labs_types.Dictionary.LabelReader.Unary.{UnaryOutcome, unary-outcome}
use ton_labs_types.Dictionary.LabelReader.Skip.{Skips, skip_label-Skips}
use ton_labs_types.Examples.Builders.{thirteen, thirteen-IsValid}
use ton_labs_types.Examples.Slices.{cell_of}
use ton_labs_types.Examples.Sealed.{first_bytes}

-- The bits 10 within a byte.
abbrev key : SliceData
key = record {
  cell = cell_of (0x20 ∷ []);
  data_start = 2;
  data_end = 4;
  references_start = 0;
  references_end = 0;
}

key-IsWindow : IsWindow key
unfolding Tree.data_bytes cell_data_len data_offset store_hashes hashes_count
key-IsWindow = record { ordered = omega arith; inside = omega arith; all_bytes = omega arith }

-- The short label 0 110 10, and two bits behind it.
abbrev labelled : SliceData
labelled = record {
  cell = cell_of (0x6b ∷ []);
  data_start = 0;
  data_end = 8;
  references_start = 0;
  references_end = 0;
}

labelled-IsWindow : IsWindow labelled
unfolding Tree.data_bytes cell_data_len data_offset store_hashes hashes_count
labelled-IsWindow = record { ordered = omega arith; inside = omega arith; all_bytes = omega arith }

labelled-HasReferences : HasReferences labelled []
unfolding references_from remaining_references
labelled-HasReferences = refl

labelled_spells : bits labelled ≡ short_code (true ∷ false ∷ []) ++ (true ∷ true ∷ [])
unfolding Tree.data_bytes bytes_bits to_bits cell_data_len data_offset store_hashes hashes_count
labelled_spells = refl

abbrev label : BuilderData
label = record new { bytes = 0x68 ∷ []; length_in_bits = 6 }

label_run : hm_label key 5 ≡ ok label
unfolding hm_label significant_bits is_empty hml_long with_raw append_bits append_raw top_bits
    append_shifting with_double_shifting trimmed shifted_bytes checked append_bytestring
    get_bytestring bytestring_loop remaining_bits get_bits cell_data_len append_bit_bool
    append_bit_zero be_bytes clear_low cut_bytes with_slice_shifting without_shifting data_offset
    hashes_count store_hashes Tree.data_bytes append_ones choose hml_same hml_short same_label
    scan_same get_byte two_bytes data_at get_bit_opt
label_run = refl

hm_label-IsShortest_example :
    (b : BuilderData) × (code : List Bool) × (hm_label key 5 ≡ ok b)
    × Written code b
    × IsShortestLabel 5 (bits key) code
unfolding significant_bits
hm_label-IsShortest_example =
    hm_label-IsShortest key key-IsWindow 5 (omega arith) (omega arith) (omega arith)

get_label-ReadsLabel_example :
    ReadsLabel labelled
      (true ∷ false ∷ [])
      (true ∷ true ∷ [])
      (get_label first_bytes (new_reader labelled) 5)
get_label-ReadsLabel_example =
    get_label-ReadsLabel first_bytes labelled labelled-IsWindow [] labelled-HasReferences 5
      (omega arith) (omega arith) (true ∷ false ∷ []) (true ∷ true ∷ [])
      (short_code (true ∷ false ∷ [])) (omega arith) (omega arith) (inr (inl refl)) labelled_spells

get_label-hm_label_example :
    ReadsLabel labelled
      (bits key)
      (true ∷ true ∷ [])
      (get_label first_bytes (new_reader labelled) 5)
unfolding significant_bits bytes_bits to_bits Tree.data_bytes cell_data_len data_offset store_hashes
    hashes_count
get_label-hm_label_example =
    get_label-hm_label first_bytes key key-IsWindow 5 (omega arith) (omega arith) (omega arith)
      (omega arith) label label_run labelled labelled-IsWindow [] labelled-HasReferences
      (true ∷ true ∷ []) labelled_spells

-- The label 0 110 without the two bits of its key: `get_label` returns an empty label, `skip_label`
-- fails.
abbrev truncated : SliceData
truncated = record labelled { cell = cell_of (0x60 ∷ []); data_end = 4 }

truncated_run : skip_label (new_reader truncated) 5 ≡ fail cell_underflow
unfolding skip_label new_reader unary count_ones get_next_bit get_bit get_bit_opt remaining_bits
    is_empty move_by data_at Tree.data_bytes cell_data_len data_offset store_hashes hashes_count
truncated_run = refl

truncated_read :
    get_label_short (record truncated { data_start = 1 }) 5
    ≡ ok (record truncated { data_start = 4 }, 3, record truncated { data_start = 4 })
unfolding get_label_short less cut_label unary count_ones get_next_bit get_bit get_bit_opt
    remaining_bits is_empty move_by data_at Tree.data_bytes cell_data_len data_offset store_hashes
    hashes_count shrink_data shrink_references remaining_references references_from
truncated_read = refl

get_label_raw-ReadsRaw_example :
    ReadsRaw labelled 5 thirteen
      (true ∷ false ∷ [])
      (true ∷ true ∷ [])
      (get_label_raw (new_reader labelled) 5 thirteen)
get_label_raw-ReadsRaw_example =
    get_label_raw-ReadsRaw labelled labelled-IsWindow [] labelled-HasReferences 5 (omega arith)
      (omega arith) thirteen thirteen-IsValid (true ∷ false ∷ []) (true ∷ true ∷ [])
      (short_code (true ∷ false ∷ [])) (omega arith) (omega arith) (inr (inl refl)) labelled_spells

skip_label-Skips_example :
    Skips labelled 5 (true ∷ false ∷ []) (true ∷ true ∷ []) (skip_label (new_reader labelled) 5)
skip_label-Skips_example =
    skip_label-Skips labelled labelled-IsWindow 5 (true ∷ false ∷ []) (true ∷ true ∷ [])
      (omega arith) (omega arith) (omega arith) (short_code (true ∷ false ∷ [])) (inr (inl refl))
      labelled_spells

ordinary_key : Tree.cell_type key.cell ≡ ordinary
unfolding Tree.cell_type Data.cell_type Layout.cell_type Layout.exotic
ordinary_key = refl

level_of_key : Tree.level_mask key.cell ≡ 0
unfolding Tree.level_mask
level_of_key = refl

key-HasReferences : HasReferences key []
unfolding references_from remaining_references
key-HasReferences = refl

overwrite_prefix-bits_example :
    (t : SliceData) × (overwrite_prefix first_bytes labelled key ≡ ok t)
    × (bits t ≡ bits key ++ drop 2 (bits labelled))
    × (length (bits t) ≡ length (bits labelled))
    × IsWindow t
overwrite_prefix-bits_example =
    overwrite_prefix-bits key key-IsWindow [] key-HasReferences ordinary_key level_of_key
      (omega arith) first_bytes 0 (omega arith) tt labelled labelled-IsWindow (omega arith)
      (omega arith) (omega arith)

unary-outcome_example : UnaryOutcome labelled (bits labelled) 0 (unary labelled)
unary-outcome_example = unary-outcome labelled labelled-IsWindow
