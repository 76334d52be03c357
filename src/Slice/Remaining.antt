-- ===== src/Slice/Remaining.antt =====
-- `remaining_data`: the bits of the window, moved to the start of a builder.
mod Paths
use ton_labs_types.Base.{◌+◌, ◌-◌, ◌≤◌, ◌≡◌, refl, sym, ap, ◌∙◌, [], arith, take, drop}
use ton_labs_types.Types.{ok}
use ton_labs_types.Bits.{bytes_bits}
use ton_labs_types.Cell.Tree as Tree
use ton_labs_types.Builder.{BuilderData, new}
use ton_labs_types.Builder.Spec as Builder
use ton_labs_types.Slice.{SliceData}
use ton_labs_types.Slice.Transfer.{remaining_data}
use ton_labs_types.Slice.Spec.{IsWindow}
use ton_labs_types.Slice.Window.{length-bits}
use native.Mathlib.Decide.{dec_le}
pub use Paths.{Holds}
use Paths.{spelled_data, new-IsValid}

-- `remaining_data` of a window of at most 1023 bits is a valid builder that spells the bits of the
-- window, wherever they start in the data of the cell: at a byte boundary, within one byte, or
-- across bytes.
pub remaining_data-Holds :
    (s : SliceData)
    → IsWindow s
    → s.data_end ≤ s.data_start + 1023
    → (b : BuilderData) × (remaining_data s ≡ ok b) × Holds s b
remaining_data-Holds s w fits = elim (dec_le s.data_end s.data_start) [
  | yes h ↦ (
    new,
    empty h,
    record {
      spells = sym (
          ap (λ k. take k (drop s.data_start (bytes_bits (Tree.data_bytes s.cell)))) {y = 0}
            (omega arith));
      length_in_bits = sym (length-bits s w ∙ omega arith);
      valid = new-IsValid;
      references = refl;
    },
  )
  | no h ↦ spelled_data s w (omega arith) fits
]
  where
    empty : s.data_end ≤ s.data_start → remaining_data s ≡ ok new
    empty h = unfold remaining_data in ground arith
