-- ===== src/Builder/Spec.antt =====
-- What a builder stands for: a bit string, apart from its references, type and level mask.
use ton_labs_types.Base.{◌*◌, ◌≤◌, Bool, List, length, take}
use ton_labs_types.Bits.{bytes_bits, AllBytes}
use ton_labs_types.Builder.{BuilderData}

abbrev pub bits : BuilderData → List Bool
bits b = take b.length_in_bits (bytes_bits b.bytes)

-- The data holds the bits and fits a cell; there may be a byte more than needed.
pub record IsValid (b : BuilderData) : Type 0 where
  pub covered : b.length_in_bits ≤ 8 * length b.bytes
  pub in_capacity : b.length_in_bits ≤ 1023
  pub stored : length b.bytes ≤ 128
  pub all_bytes : AllBytes b.bytes
  pub few_references : length b.references ≤ 4
