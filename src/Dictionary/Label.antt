-- ===== src/Dictionary/Label.antt =====
-- src/dictionary/mod.rs: `hml_long`, `hml_short`, `hml_same` and `hm_label`. The debug assertions
-- are not modelled.
pub mod Spec
pub mod Written
pub mod Writes
pub mod Same
pub mod Choice
pub mod Width
pub mod Shortest
use ton_labs_types.Base.{
  ℕ, zero, suc, ◌+◌, ◌-◌, ◌/◌, ◌%◌, ◌^◌, min, Bool, true, false, not, ◌||◌, [], ◌∷◌, Option, none,
  some, ltb, leb, ◌==◌, if◌then◌else◌,
}
use ton_labs_types.Types.{Result, ok, err, panic, ◌>>=◌}
use ton_labs_types.Builder.{BuilderData, with_raw}
use ton_labs_types.Builder.Operations.{append_bits, append_bit_zero, append_bit_bool}
use ton_labs_types.Slice.{SliceData, remaining_bits, get_bit_opt, is_empty}
use ton_labs_types.Slice.Reading.{significant_bits}
use ton_labs_types.Slice.Transfer.{append_bytestring}

-- hml_long$10 n:(#<= m) s:n*bit
unfoldable pub hml_long : SliceData → ℕ → Result BuilderData
hml_long key len = do
  label ← with_raw (0b10000000 ∷ []) 2
  label' ← append_bits label (remaining_bits key) len
  append_bytestring label' key

-- `.ok()` of a result, where a panic stays one.
abbrev pub ok_option {ℓ} : {A : Type ℓ} → Result A → Result (Option A)
ok_option (ok a) = ok (some a)
ok_option (err e) = ok none
ok_option panic = panic

-- 32 ones in each round.
unfoldable pub append_ones : ℕ → BuilderData → Result BuilderData
append_ones zero label = ok label
append_ones (suc left) label = do
  label' ← append_bits label (2 ^ 32 - 1) 32
  append_ones left label'

-- hml_short$0 {n:#} len:(Unary ~n) s:n*bit
unfoldable pub hml_short : SliceData → Result (Option BuilderData)
hml_short key = ok_option (do
  label ← with_raw (0b00000000 ∷ []) 1
  let length = remaining_bits key
  blocks ← append_ones (length / 32) label
  let remainder = length % 32
  ones ← if not (remainder == 0) then append_bits blocks (2 ^ 32 - 1) remainder else ok blocks
  ended ← append_bit_zero ones
  append_bytestring ended key)

-- The loop of `hml_same` over `left` bits: `none` for two different bits, else whether a zero was
-- found.
unfoldable pub scan_same : SliceData → ℕ → ℕ → Bool → Bool → Result (Option Bool)
scan_same key zero offset zero_bit_found one_bit_found = ok (some zero_bit_found)
scan_same key (suc left) offset zero_bit_found one_bit_found = do
  bit ← get_bit_opt key offset
  elim bit [
    | none ↦ ok none
    | some false ↦
        if one_bit_found then ok none else scan_same key left (offset + 1) true one_bit_found
    | some true ↦
        if zero_bit_found then ok none else scan_same key left (offset + 1) zero_bit_found true
  ]

unfoldable pub same_label : ℕ → ℕ → Option Bool → Result (Option BuilderData)
same_label bits len none = ok none
same_label bits len (some zero_bit_found) = ok_option (do
  label ← with_raw (0b11000000 ∷ []) 2
  label' ← append_bit_bool label (not zero_bit_found)
  append_bits label' bits len)

-- hml_same$11 v:bit n:(#<= m)
unfoldable pub hml_same : SliceData → ℕ → Result (Option BuilderData)
hml_same key len = do
  found ← scan_same key (remaining_bits key) 0 false false
  same_label (remaining_bits key) len found

unfoldable pub hm_empty : Result BuilderData
hm_empty = with_raw (0b00000000 ∷ []) 2

-- The last tests of `hm_label`, on the labels that exist.
unfoldable pub choose : BuilderData → Option BuilderData → Option BuilderData → BuilderData
choose long (some short) (some same) =
    if ltb same.length_in_bits (min long.length_in_bits short.length_in_bits)
    then same
    else if leb short.length_in_bits long.length_in_bits
    then short
    else long
choose long (some short) none = if leb short.length_in_bits long.length_in_bits then short else long
choose long none (some same) = if ltb same.length_in_bits long.length_in_bits then same else long
choose long none none = long

-- `16 - (max as u16).leading_zeros()` is the width of `max`.
unfoldable pub hm_label : SliceData → ℕ → Result BuilderData
hm_label key max =
    let len = significant_bits 16 (max % 2 ^ 16) in
    if is_empty key || max == 0 then hm_empty else (do
      long ← hml_long key len
      short ← hml_short key
      same ← hml_same key len
      ok (choose long short same))
