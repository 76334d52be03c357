-- ===== src/Slice/Prefix/Digits.antt =====
-- The equal digits of two numbers of at most eight bits, counted by the leading zeros of their
-- exclusive or.
use ton_labs_types.Base.{
  ℕ, ◌-◌, ◌^◌, ◌≤◌, ◌<◌, ◌≡◌, refl, min, bit_xor, Bool, true, ◌==◌, ==_iff, arith,
}
use ton_labs_types.Base.Tables.{all_below, all_below_sound}
use ton_labs_types.Bits.{to_bits}
use ton_labs_types.Bits.Common.{common}
use ton_labs_types.Slice.Reading.{significant_bits}
use ton_labs_types.Slice.Prefix.{leading_zeros}

-- The count of `shared_bits`.
abbrev pub equal_digits : ℕ → ℕ → ℕ → ℕ
equal_digits k x y = min (leading_zeros (bit_xor x y) - (8 - k)) k

digits_table : ℕ → Bool
digits_table k =
    all_below (2 ^ k)
      λ x. all_below (2 ^ k) λ y. common (to_bits k x) (to_bits k y) == equal_digits k x y

digits_lem :
    (k : ℕ)
    → digits_table k ≡ true
    → (x y : ℕ) → x < 2 ^ k
    → y < 2 ^ k
    → common (to_bits k x) (to_bits k y) ≡ equal_digits k x y
unfolding digits_table
digits_lem k table x y p q = (==_iff (common (to_bits k x) (to_bits k y)) (equal_digits k x y)).0 (
    all_below_sound (2 ^ k) (λ y. common (to_bits k x) (to_bits k y) == equal_digits k x y) y
      (all_below_sound (2 ^ k)
        (λ x. all_below (2 ^ k) λ y. common (to_bits k x) (to_bits k y) == equal_digits k x y) x
        table p)
      q)

digits_tables : (k : ℕ) → k < 9 → digits_table k ≡ true
unfolding digits_table all_below to_bits leading_zeros significant_bits
digits_tables k h = all_below_sound 9 digits_table k refl h

pub common-to_bits :
    (k x y : ℕ)
    → k ≤ 8
    → x < 2 ^ k
    → y < 2 ^ k
    → common (to_bits k x) (to_bits k y) ≡ equal_digits k x y
common-to_bits k x y h p q = digits_lem k (digits_tables k (omega arith)) x y p q
