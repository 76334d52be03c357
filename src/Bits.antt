-- ===== src/Bits.antt =====
-- Bit strings, most significant bit first: the view in which the bytes of a cell are read. No
-- function of the source; the specifications of the builder, the slice and the labels use it.
pub mod Laws
pub mod Cut
pub mod Fields
pub mod Common
use ton_labs_types.Base.{ℕ, zero, suc, ◌+◌, ◌/◌, ◌%◌, ◌^◌, ◌<◌, Bool, List, [], ◌∷◌, ◌++◌, ◌==◌}

-- The `w` low bits of `n`, the highest first.
unfoldable pub to_bits : ℕ → ℕ → List Bool
to_bits zero n = []
to_bits (suc w) n = (n / 2 ^ w % 2 == 1) ∷ to_bits w n

unfoldable pub bytes_bits : List ℕ → List Bool
bytes_bits [] = []
bytes_bits (x ∷ xs) = to_bits 8 x ++ bytes_bits xs

abbrev pub IsByte : ℕ → Type 0
IsByte x = x < 256

abbrev pub AllBytes : List ℕ → Type 0
AllBytes [] = Unit
AllBytes (x ∷ xs) = IsByte x × AllBytes xs
