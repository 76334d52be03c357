-- ===== src/Builder/Operations/Spells.antt =====
-- What the appends of integers, bits and builders spell.
use ton_labs_types.Base.{
  ℕ, zero, suc, ◌+◌, ◌-◌, ◌*◌, ◌/◌, ◌%◌, ◌^◌, ◌≤◌, ◌<◌, ◌≡◌, ◌≢◌, subst, refl, sym, ap, ap₂, ◌∙◌,
  Bool, List, [], ◌∷◌, ◌++◌, arith, length, take, take_all,
}
use ton_labs_types.Types.{Result, ok}
use ton_labs_types.Bits.{to_bits, bytes_bits, AllBytes}
use ton_labs_types.Bits.Laws.{to_bits-split, to_bits-mod, take-to_bits, length-to_bits}
use native.Mathlib.Nat.{mul-div_cancel, one-le-pow}
use native.Mathlib.Decide.{ℕ_discrete, dec_le}
use ton_labs_types.Builder.{BuilderData, append_raw}
use ton_labs_types.Builder.Spec.{IsValid}
use ton_labs_types.Builder.Append.{Appended, append_raw-Appended, nothing-Appended}
use ton_labs_types.Builder.Operations.{
  be_bytes, top_bits, append_bits, append_u8, append_u16, append_u32, append_u64, append_u128,
}

pub be_bytes-AllBytes : (count value : ℕ) → AllBytes (be_bytes count value)
unfolding be_bytes
be_bytes-AllBytes zero value = tt
be_bytes-AllBytes (suc count) value = (omega arith, be_bytes-AllBytes count value)

pub length-be_bytes : (count value : ℕ) → length (be_bytes count value) ≡ count
unfolding be_bytes
length-be_bytes zero value = refl
length-be_bytes (suc count) value = ap suc (length-be_bytes count value)

-- The bytes of an integer spell its binary digits.
pub be_bytes-bits :
    (count value : ℕ) → bytes_bits (be_bytes count value) ≡ to_bits (8 * count) value
unfolding be_bytes bytes_bits
be_bytes-bits zero value = unfold to_bits in refl
be_bytes-bits (suc count) value =
    ap₂ (λ t u. t ++ u) (to_bits-mod 8 8 (value / 2 ^ (8 * count)) (omega arith))
      (be_bytes-bits count value)
    ∙ sym (to_bits-split 8 (8 * count) value)
    ∙ ap (λ w. to_bits w value) (omega arith)

-- `bits` low bits of the value, moved to the top of an integer that is wide enough.
top_bits-bits :
    (count value n : ℕ)
    → n ≤ 8 * count
    → take n (bytes_bits (top_bits count value n)) ≡ to_bits n value
unfolding top_bits
top_bits-bits count value n h =
    ap (take n) (
      be_bytes-bits count (value % 2 ^ w * 2 ^ (w - n) % 2 ^ w)
      ∙ to_bits-mod w w (value % 2 ^ w * 2 ^ (w - n)) (omega arith)
      ∙ ap (λ m. to_bits m (value % 2 ^ w * 2 ^ (w - n))) width)
    ∙ take-to_bits n (w - n) (value % 2 ^ w * 2 ^ (w - n))
    ∙ ap (to_bits n) (mul-div_cancel (value % 2 ^ w) (one-le-pow (w - n) 2 (omega arith)))
    ∙ to_bits-mod n w value h
  where
    w : ℕ
    w = 8 * count

    width : w ≡ n + (w - n)
    width = omega arith

top_bits-AllBytes : (count value n : ℕ) → AllBytes (top_bits count value n)
unfolding top_bits
top_bits-AllBytes count value n = be_bytes-AllBytes count _

length-top_bits : (count value n : ℕ) → length (top_bits count value n) ≡ count
unfolding top_bits
length-top_bits count value n = length-be_bytes count _

-- The result is a builder to which the bits are appended.
abbrev pub Appends : BuilderData → List Bool → Result BuilderData → Type 0
Appends b added r = (b' : BuilderData) × (r ≡ ok b') × Appended b added b'

module _ (b : BuilderData) (v : IsValid b) where
  append_top :
      (count value n : ℕ)
      → n ≤ 8 * count
      → b.length_in_bits + n ≤ 1023
      → Appends b (to_bits n value) (append_raw b (top_bits count value n) n)
  append_top count value n h room =
      subst (λ t. Appends b t (append_raw b (top_bits count value n) n))
        (top_bits-bits count value n h)
        (append_raw-Appended b (top_bits count value n) n v (top_bits-AllBytes count value n)
          (omega (arith, length-top_bits count value n)) room)

  append_be :
      (count value : ℕ)
      → b.length_in_bits + 8 * count ≤ 1023
      → Appends b (to_bits (8 * count) value) (append_raw b (be_bytes count value) (8 * count))
  append_be count value room =
      subst (λ t. Appends b t (append_raw b (be_bytes count value) (8 * count)))
        (take_all (8 * count) _
            (omega (arith, ap length (be_bytes-bits count value), length-to_bits (8 * count) value))
          ∙ be_bytes-bits count value)
        (append_raw-Appended b (be_bytes count value) (8 * count) v (be_bytes-AllBytes count value)
          (omega (arith, length-be_bytes count value)) room)

  append_bits_width :
      (value n : ℕ)
      → n ≢ 0
      → n < 64
      → (count : ℕ) × (n ≤ 8 * count)
        × (append_bits b value n ≡ append_raw b (top_bits count value n) n)
  unfolding append_bits
  append_bits_width value n ne h = elim (dec_le n 7) [
    | yes p ↦ (1, omega arith, ground arith)
    | no p ↦ elim (dec_le n 15) [
      | yes q ↦ (2, omega arith, ground arith)
      | no q ↦ elim (dec_le n 31) [
        | yes r ↦ (4, omega arith, ground arith)
        | no r ↦ (8, omega arith, ground arith)
      ]
    ]
  ]

  -- `append_bits` appends the `n` low bits of the value, the highest first, for every `n` below 64
  -- for which there is room, in each of the four widths.
  pub append_bits-Appended :
      (value n : ℕ)
      → n < 64
      → b.length_in_bits + n ≤ 1023
      → Appends b (to_bits n value) (append_bits b value n)
  append_bits-Appended value n h room = elim (ℕ_discrete n 0) [
    | yes e ↦ (b, nothing e, rw e (nothing_spelled value))
    | no ne ↦
        let (count, wide, runs) = append_bits_width value n ne h in
        rw runs (append_top count value n wide room)
  ]
    where
      nothing : n ≡ 0 → append_bits b value n ≡ ok b
      nothing e = unfold append_bits in rw e

      nothing_spelled : (value : ℕ) → Appended b (to_bits 0 value) b
      nothing_spelled value = unfold to_bits in nothing-Appended b [] 0 v tt (omega arith) refl

  byte_bits : (value : ℕ) → take 8 (bytes_bits (value ∷ [])) ≡ to_bits 8 value
  unfolding bytes_bits to_bits
  byte_bits value = refl

  append_byte :
      (value : ℕ)
      → value < 256
      → b.length_in_bits + 8 ≤ 1023
      → Appends b (to_bits 8 value) (append_u8 b value)
  unfolding append_u8
  append_byte value h room =
      subst (λ t. Appends b t (append_raw b (value ∷ []) 8)) (byte_bits value)
        (append_raw-Appended b (value ∷ []) 8 v (h, tt) (omega arith) room)

  -- Where there is room for 128 bits, an integer of 8, 16, 32, 64 or 128 bits appends all of its
  -- bits, the highest first.
  pub append_integers :
      (value : ℕ)
      → b.length_in_bits + 128 ≤ 1023
      → Appends b (to_bits 8 (value % 256)) (append_u8 b (value % 256))
        × Appends b (to_bits 16 value) (append_u16 b value)
        × Appends b (to_bits 32 value) (append_u32 b value)
        × Appends b (to_bits 64 value) (append_u64 b value)
        × Appends b (to_bits 128 value) (append_u128 b value)
  unfolding append_u16 append_u32 append_u64 append_u128
  append_integers value room = (
    append_byte (value % 256) (omega arith) (omega arith),
    append_be 2 value (omega arith),
    append_be 4 value (omega arith),
    append_be 8 value (omega arith),
    append_be 16 value room,
  )
