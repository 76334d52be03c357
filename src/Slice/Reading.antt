-- ===== src/Slice/Reading.antt =====
-- src/cell/slice.rs: `get_bits` and the reads of bytes and integers. A read returns the slice past
-- what it read. The integers are shifted into place byte by byte, `count` bytes in all.
use ton_labs_types.Base.{
  ℕ, zero, suc, ◌+◌, ◌-◌, ◌*◌, ◌/◌, ◌%◌, ◌^◌, bit_or, Bool, ◌||◌, List, [], ◌∷◌, ◌++◌, Option, none,
  some, ltb, leb, ◌==◌, if◌then◌else◌, length,
}
use ton_labs_types.Types.{
  Result, ok, err, panic, message, fail, cell_underflow, range_check_error, unwrap_ok, ◌>>=◌,
}
use ton_labs_types.Cell.Tree.{Cell}
use ton_labs_types.Cell.Tree as Tree
use ton_labs_types.Slice.{
  SliceData, remaining_bits, data_at, move_by, get_bit, checked_drain_reference,
}

-- `if q < data.len() { data[q] }`, and the byte behind it with `q < data.len() - 1`.
unfoldable pub two_bytes : SliceData → ℕ → Result ℕ
unfolding data_at Tree.data_bytes
two_bytes s q = do
  let len = length (Tree.data_bytes s.cell)
  high ← if ltb q len then data_at s q else ok 0
  low ← if len == 0 then panic else if ltb q (len - 1) then data_at s (q + 1) else ok 0
  ok (bit_or (high * 2 ^ 8) low)

-- `& ((1 << bits) - 1)` is the remainder. The bits may stand in two bytes.
unfoldable pub get_bits : SliceData → ℕ → ℕ → Result ℕ
unfolding remaining_bits data_at two_bytes
get_bits s offset bits =
    if ltb (remaining_bits s) (offset + bits)
    then fail cell_underflow
    else if bits == 0 || ltb 8 bits
    then fail range_check_error
    else let index = s.data_start + offset in
      let q = index / 8 in
      let r = index % 8 in
      if r == 0
      then (data_at s q >>= λ byte. ok (byte / 2 ^ (8 - r - bits)))
      else if leb bits (8 - r)
      then (data_at s q >>= λ byte. ok (byte / 2 ^ (8 - r - bits) % 2 ^ bits))
      else two_bytes s q >>= λ ret. ok (ret / 2 ^ (8 - r) % 256 / 2 ^ (8 - bits))

unfoldable pub get_byte : SliceData → ℕ → Result ℕ
unfolding get_bits
get_byte s offset = get_bits s offset 8

-- The bytes at `8 * i` and on, `left` of them.
bytes_from : SliceData → ℕ → ℕ → Result (List ℕ)
unfolding get_byte
bytes_from s i zero = ok []
bytes_from s i (suc left) = do
  byte ← unwrap_ok (get_byte s (i * 8))
  rest ← bytes_from s (i + 1) left
  ok (byte ∷ rest)

unfoldable pub get_next_bits : SliceData → ℕ → Result (SliceData × List ℕ)
unfolding remaining_bits bytes_from get_bits move_by
get_next_bits s bits = if ltb (remaining_bits s) bits then fail cell_underflow else (do
  let bytes = bits / 8
  let remainder = bits % 8
  vec ← bytes_from s 0 bytes
  tail ←
      if remainder == 0
      then ok []
      else get_bits s (bytes * 8) remainder >>= λ v. ok (v * 2 ^ (8 - remainder) % 256 ∷ [])
  s' ← move_by s bits
  ok (s', vec ++ tail))

unfoldable pub get_next_bit : SliceData → Result (SliceData × Bool)
unfolding get_bit move_by
get_next_bit s = do bit ← get_bit s 0; s' ← move_by s 1; ok (s', bit)

unfoldable pub get_next_byte : SliceData → Result (SliceData × ℕ)
unfolding get_byte move_by
get_next_byte s = do value ← get_byte s 0; s' ← move_by s 8; ok (s', value)

-- The loop over the bytes: byte `i` goes to the place `8 * (top - 1 - i)`.
unfoldable pub gather : SliceData → ℕ → ℕ → ℕ → ℕ → Result ℕ
unfolding get_byte
gather s top i zero value = ok value
gather s top i (suc left) value = do
  byte ← get_byte s (8 * i)
  gather s top (i + 1) left (bit_or value (byte * 2 ^ (8 * (top - 1 - i))))

unfoldable pub get_next_int : SliceData → ℕ → Result (SliceData × ℕ)
get_next_int s bits =
    if ltb (remaining_bits s) bits
    then fail cell_underflow
    else if bits == 0
    then ok (s, 0)
    else if ltb 64 bits
    then err message
    else (do
      let bytes = bits / 8
      let remainder = bits % 8
      value ← gather s 8 0 bytes 0
      value' ←
          if remainder == 0
          then ok value
          else get_bits s (bytes * 8) remainder >>= λ r.
              ok (bit_or value (r * 2 ^ (8 * (7 - bytes) + (8 - remainder))))
      s' ← move_by s bits
      ok (s', value' / 2 ^ (64 - bits)))

-- `get_next_u16` to `get_next_u128`: `count` bytes, and the move behind them.
unfoldable pub next_bytes : ℕ → SliceData → Result (SliceData × ℕ)
unfolding gather move_by
next_bytes count s = do value ← gather s count 0 count 0; s' ← move_by s (8 * count); ok (s', value)

unfoldable pub get_next_u16 : SliceData → Result (SliceData × ℕ)
unfolding next_bytes
get_next_u16 s = next_bytes 2 s

unfoldable pub get_next_u32 : SliceData → Result (SliceData × ℕ)
unfolding next_bytes
get_next_u32 s = next_bytes 4 s

unfoldable pub get_next_u64 : SliceData → Result (SliceData × ℕ)
unfolding next_bytes
get_next_u64 s = next_bytes 8 s

unfoldable pub get_next_u128 : SliceData → Result (SliceData × ℕ)
unfolding next_bytes
get_next_u128 s = next_bytes 16 s

-- The width of `max_value`, whose low 16 bits count.
unfoldable pub significant_bits : ℕ → ℕ → ℕ
significant_bits zero value = 0
significant_bits (suc fuel) value =
    let rest = significant_bits fuel (value / 2) in if value == 0 then 0 else suc rest

unfoldable pub get_next_size : SliceData → ℕ → Result (SliceData × ℕ)
unfolding get_next_int significant_bits
get_next_size s max_value =
    if max_value == 0 then ok (s, 0) else get_next_int s (significant_bits 16 (max_value % 2 ^ 16))

next_bytes_loop : ℕ → SliceData → Result (SliceData × List ℕ)
unfolding get_next_byte
next_bytes_loop zero s = ok (s, [])
next_bytes_loop (suc left) s = do
  (s', byte) ← unwrap_ok (get_next_byte s)
  (s'', rest) ← next_bytes_loop left s'
  ok (s'', byte ∷ rest)

unfoldable pub get_next_bytes : SliceData → ℕ → Result (SliceData × List ℕ)
unfolding remaining_bits next_bytes_loop
get_next_bytes s bytes =
    if ltb (remaining_bits s) (bytes * 8) then fail cell_underflow else next_bytes_loop bytes s

-- `get_bytestring`, from `offset` to the end of the window; `fuel` bounds the rounds.
unfoldable pub bytestring_loop : ℕ → SliceData → ℕ → Result (List ℕ)
bytestring_loop zero s offset = ok []
bytestring_loop (suc fuel) s offset =
    let byte = unwrap_ok (get_byte s offset) in
    let rest = bytestring_loop fuel s (offset + 8) in
    let remainder = s.data_end - s.data_start - offset in
    if leb (s.data_start + offset + 8) s.data_end
    then (byte >>= λ x. rest >>= λ xs. ok (x ∷ xs))
    else if ltb (s.data_start + offset) s.data_end
    then (unwrap_ok (get_bits s offset remainder) >>= λ x. ok (x * 2 ^ (8 - remainder) % 256 ∷ []))
    else ok []

unfoldable pub get_bytestring : SliceData → ℕ → Result (List ℕ)
get_bytestring s offset = bytestring_loop (remaining_bits s / 8 + 1) s offset

unfoldable pub get_next_dictionary : SliceData → Result (SliceData × Option Cell)
unfolding get_next_bit checked_drain_reference
get_next_dictionary s = do
  (s', bit) ← get_next_bit s
  if bit then (checked_drain_reference s' >>= λ r. ok (r.0, some r.1)) else ok (s', none)
