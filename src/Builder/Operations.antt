-- ===== src/Builder/Operations.antt =====
-- src/cell/builder_operations.rs: the capacity tests and `IBitstring`, without the two methods that
-- take a slice (`Slice.Transfer`). A signed integer is given by its two's complement pattern.
pub mod Spells
pub mod Whole
use ton_labs_types.Base.{
  ℕ, zero, suc, ◌+◌, ◌-◌, ◌*◌, ◌/◌, ◌%◌, ◌^◌, Bool, ◌&&◌, List, [], ◌∷◌, leb, ◌==◌, if◌then◌else◌,
  length,
}
use ton_labs_types.Types.{Result, ok, panic, fail, cell_overflow, ◌>>=◌}
use ton_labs_types.Tag.{find_tag}
use ton_labs_types.Cell.Layout.{max_data_bits, max_references_count}
use ton_labs_types.Builder.{
  BuilderData, references_free, append_raw, prepend_raw, append_all_references,
}

-- `value.to_be_bytes()` for an integer of `count` bytes.
unfoldable pub be_bytes : ℕ → ℕ → List ℕ
be_bytes zero value = []
be_bytes (suc count) value = (value / 2 ^ (8 * count) % 256) ∷ be_bytes count value

unfoldable pub references_capacity : ℕ
references_capacity = max_references_count

unfoldable pub references_used : BuilderData → ℕ
references_used b = length b.references

unfoldable pub bits_capacity : ℕ
bits_capacity = max_data_bits

unfoldable pub bits_used : BuilderData → ℕ
bits_used b = b.length_in_bits

unfoldable pub bits_free : BuilderData → ℕ
unfolding bits_used
bits_free b = max_data_bits - bits_used b

unfoldable pub check_enough_refs : BuilderData → ℕ → Bool
check_enough_refs b count = leb (length b.references + count) max_references_count

unfoldable pub check_enough_space : BuilderData → ℕ → Bool
check_enough_space b size = leb (b.length_in_bits + size) max_data_bits

unfoldable pub can_append : BuilderData → BuilderData → Bool
unfolding bits_free bits_used references_free references_used
can_append b x = leb (bits_used x) (bits_free b) && leb (references_used x) (references_free b)

unfoldable pub prepend_builder : BuilderData → BuilderData → Result BuilderData
prepend_builder b x = prepend_raw b x.bytes x.length_in_bits

unfoldable pub prepend_bitstring : BuilderData → List ℕ → Result BuilderData
prepend_bitstring b bytes = prepend_raw b bytes (find_tag bytes)

unfoldable pub append_builder : BuilderData → BuilderData → Result BuilderData
append_builder b x =
    if can_append b x
    then (do b' ← append_raw b x.bytes x.length_in_bits; append_all_references b' x.references)
    else fail cell_overflow

unfoldable pub append_bitstring : BuilderData → List ℕ → Result BuilderData
append_bitstring b bytes = append_raw b bytes (find_tag bytes)

unfoldable pub append_bit_zero : BuilderData → Result BuilderData
append_bit_zero b = append_raw b (0x00 ∷ []) 1

unfoldable pub append_bit_one : BuilderData → Result BuilderData
append_bit_one b = append_raw b (0xff ∷ []) 1

unfoldable pub append_bit_bool : BuilderData → Bool → Result BuilderData
append_bit_bool b bit = if bit then append_raw b (0xff ∷ []) 1 else append_raw b (0x00 ∷ []) 1

-- `((value as uN) << (N - bits)).to_be_bytes()` for an integer of `count` bytes.
unfoldable pub top_bits : ℕ → ℕ → ℕ → List ℕ
unfolding be_bytes
top_bits count value bits =
    be_bytes count (value % 2 ^ (8 * count) * 2 ^ (8 * count - bits) % 2 ^ (8 * count))

-- From 64 bits on the source is `unimplemented!`.
unfoldable pub append_bits : BuilderData → ℕ → ℕ → Result BuilderData
append_bits b value bits =
    if bits == 0
    then ok b
    else if leb bits 7
    then append_raw b (top_bits 1 value bits) bits
    else if leb bits 15
    then append_raw b (top_bits 2 value bits) bits
    else if leb bits 31
    then append_raw b (top_bits 4 value bits) bits
    else if leb bits 63
    then append_raw b (top_bits 8 value bits) bits
    else panic

unfoldable pub append_u8 : BuilderData → ℕ → Result BuilderData
append_u8 b value = append_raw b (value ∷ []) 8

unfoldable pub append_u16 : BuilderData → ℕ → Result BuilderData
append_u16 b value = append_raw b (be_bytes 2 value) 16

unfoldable pub append_u32 : BuilderData → ℕ → Result BuilderData
append_u32 b value = append_raw b (be_bytes 4 value) 32

unfoldable pub append_u64 : BuilderData → ℕ → Result BuilderData
append_u64 b value = append_raw b (be_bytes 8 value) 64

unfoldable pub append_u128 : BuilderData → ℕ → Result BuilderData
append_u128 b value = append_raw b (be_bytes 16 value) 128

unfoldable pub append_i8 : BuilderData → ℕ → Result BuilderData
append_i8 b value = append_raw b ((value % 2 ^ 8) ∷ []) 8

unfoldable pub append_i16 : BuilderData → ℕ → Result BuilderData
append_i16 b value = append_raw b (be_bytes 2 value) 16

unfoldable pub append_i32 : BuilderData → ℕ → Result BuilderData
append_i32 b value = append_raw b (be_bytes 4 value) 32

unfoldable pub append_i64 : BuilderData → ℕ → Result BuilderData
append_i64 b value = append_raw b (be_bytes 8 value) 64

unfoldable pub append_i128 : BuilderData → ℕ → Result BuilderData
append_i128 b value = append_raw b (be_bytes 16 value) 128
