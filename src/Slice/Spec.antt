-- ===== src/Slice/Spec.antt =====
-- What a slice stands for: the bits of its window.
use ton_labs_types.Base.{◌*◌, ◌-◌, ◌≤◌, Bool, List, length, take, drop}
use ton_labs_types.Bits.{bytes_bits, AllBytes}
use ton_labs_types.Cell.Tree as Tree
use ton_labs_types.Slice.{SliceData}

abbrev pub bits : SliceData → List Bool
bits s = take (s.data_end - s.data_start) (drop s.data_start (bytes_bits (Tree.data_bytes s.cell)))

-- The window lies in the cell's data.
pub record IsWindow (s : SliceData) : Type 0 where
  pub ordered : s.data_start ≤ s.data_end
  pub inside : s.data_end ≤ 8 * length (Tree.data_bytes s.cell)
  pub all_bytes : AllBytes (Tree.data_bytes s.cell)
