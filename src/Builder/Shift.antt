-- ===== src/Builder/Shift.antt =====
-- The loop of `append_with_double_shifting`: the carried bits, then the slice, then zeros.
use ton_labs_types.Base.{
  ℕ, suc, ◌+◌, ◌-◌, ◌*◌, ◌/◌, ◌%◌, ◌^◌, ◌≤◌, ◌<◌, bit_or, ◌≡◌, refl, sym, ap, ap₂, ◌∙◌, Bool, false,
  List, [], ◌∷◌, ◌++◌, append-nil, append_assoc, arith, length, replicate,
}
use ton_labs_types.Bits.{to_bits, bytes_bits, AllBytes}
use ton_labs_types.Bits.Laws.{to_bits-split, to_bits-mod, to_bits-shift_left, to_bits-pair}
use ton_labs_types.Bits.Fields.{bit_or-add}
use ton_labs_types.Builder.{shifted_bytes}

-- The carry with one more byte, as a `u16`.
abbrev carried : ℕ → ℕ → ℕ
carried y x = bit_or (y * 2 ^ 8 % 2 ^ 16) x

carried_sum : (y x : ℕ) → x < 256 → carried y x ≡ y % 2 ^ 8 * 2 ^ 8 + x
carried_sum y x b = ap (λ (t : ℕ). bit_or t x) high ∙ bit_or-add 8 (y % 2 ^ 8) x b
  where
    high : y * 2 ^ 8 % 2 ^ 16 ≡ y % 2 ^ 8 * 2 ^ 8
    high = omega arith

module _ (s : ℕ) (small : s ≤ 8) where
  carried_bits :
      (y x : ℕ)
      → x < 256
      → to_bits 8 (carried y x / 2 ^ s % 256) ++ to_bits s (carried y x)
        ≡ to_bits s y ++ to_bits 8 x
  carried_bits y x b =
      ap (λ t. t ++ to_bits s (carried y x)) (to_bits-mod 8 8 (carried y x / 2 ^ s) (omega arith))
      ∙ sym (to_bits-split 8 s (carried y x))
      ∙ ap₂ to_bits width (carried_sum y x b)
      ∙ to_bits-pair s 8 (y % 2 ^ 8) x b
      ∙ ap (λ t. t ++ to_bits 8 x) (to_bits-mod s 8 y small)
    where
      width : 8 + s ≡ s + 8
      width = omega arith

  last_bits :
      (y : ℕ) → to_bits 8 (y * 2 ^ (8 - s) % 2 ^ 16 % 256) ≡ to_bits s y ++ replicate (8 - s) false
  last_bits y =
      to_bits-mod 8 8 (y * 2 ^ (8 - s) % 2 ^ 16) (omega arith)
      ∙ to_bits-mod 8 16 (y * 2 ^ (8 - s)) (omega arith)
      ∙ ap (λ w. to_bits w (y * 2 ^ (8 - s))) {y = s + (8 - s)} (omega arith)
      ∙ to_bits-shift_left s (8 - s) y

  pub shifted_bytes-bits :
      (y : ℕ) (xs : List ℕ)
      → AllBytes xs
      → bytes_bits (shifted_bytes s y xs)
        ≡ to_bits s y ++ (bytes_bits xs ++ replicate (8 - s) false)
  unfolding shifted_bytes bytes_bits
  shifted_bytes-bits y [] a = append-nil _ ∙ last_bits y
  shifted_bytes-bits y (x ∷ xs) a =
      ap (λ t. to_bits 8 (carried y x / 2 ^ s % 256) ++ t) (shifted_bytes-bits (carried y x) xs a.1)
      ∙ sym (append_assoc _ (to_bits s (carried y x)) (bytes_bits xs ++ zeros))
      ∙ ap (λ t. t ++ (bytes_bits xs ++ zeros)) (carried_bits y x a.0)
      ∙ append_assoc (to_bits s y) (to_bits 8 x) (bytes_bits xs ++ zeros)
      ∙ ap (λ t. to_bits s y ++ t) (sym (append_assoc (to_bits 8 x) (bytes_bits xs) zeros))
    where
      zeros : List Bool
      zeros = replicate (8 - s) false

  pub length-shifted_bytes : (y : ℕ) (xs : List ℕ) → length (shifted_bytes s y xs) ≡ suc (length xs)
  unfolding shifted_bytes
  length-shifted_bytes y [] = refl
  length-shifted_bytes y (x ∷ xs) = ap suc (length-shifted_bytes (carried y x) xs)

  pub shifted_bytes-AllBytes : (y : ℕ) (xs : List ℕ) → AllBytes (shifted_bytes s y xs)
  unfolding shifted_bytes
  shifted_bytes-AllBytes y [] = (omega arith, tt)
  shifted_bytes-AllBytes y (x ∷ xs) = (omega arith, shifted_bytes-AllBytes (carried y x) xs)
