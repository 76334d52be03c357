-- ===== src/Dictionary/Label/Width.antt =====
-- The number of bits of `#<= max` in the grammar of labels: as few as hold `max`.
use ton_labs_types.Base.{ℕ, zero, suc, ◌+◌, ◌*◌, ◌/◌, ◌%◌, ◌^◌, ◌≤◌, ◌<◌, ◌≡◌, ◌≢◌, ap, ◌∙◌, arith}
use ton_labs_types.Bits.Laws.{pow_add}
use ton_labs_types.Slice.Reading.{significant_bits}
use ton_labs_types.Dictionary.Label.Spec.{IsWidth}
use native.Mathlib.Decide.{ℕ_discrete}
use native.Mathlib.Nat.{one-le-pow}

-- The bits of a number up to `max`.
abbrev pub width : ℕ → ℕ
width max = significant_bits 16 (max % 2 ^ 16)

pub significant_bits-le : (fuel value : ℕ) → significant_bits fuel value ≤ fuel
unfolding significant_bits
significant_bits-le zero value = omega arith
significant_bits-le (suc fuel) value = ground (arith, significant_bits-le fuel (value / 2))

pow_suc : (n : ℕ) → 2 ^ suc n ≡ 2 * 2 ^ n
pow_suc n = ap (λ (k : ℕ). 2 ^ k) {x = suc n} {y = 1 + n} (omega arith) ∙ pow_add 1 n

pub significant_bits-suc :
    (fuel value : ℕ)
    → value ≢ 0
    → significant_bits (suc fuel) value ≡ suc (significant_bits fuel (value / 2))
unfolding significant_bits
significant_bits-suc fuel value ne = ground arith

pub significant_bits-lt :
    (fuel value : ℕ) → value < 2 ^ fuel → value < 2 ^ significant_bits fuel value
significant_bits-lt zero value h = unfold significant_bits in h
significant_bits-lt (suc fuel) value h = elim (ℕ_discrete value 0) [
  | yes e ↦ rw e (one-le-pow (significant_bits (suc fuel) 0) 2 (omega arith))
  | no ne ↦
      let below = significant_bits-lt fuel (value / 2) (omega (arith, pow_suc fuel)) in
      rw (significant_bits-suc fuel value ne)
        (omega (arith, below, pow_suc (significant_bits fuel (value / 2))))
]

-- No fewer bits hold the number.
significant_bits-least : (fuel value w : ℕ) → value < 2 ^ w → significant_bits fuel value ≤ w
significant_bits-least zero value w h = unfold significant_bits in omega arith
significant_bits-least (suc fuel) value zero h = unfold significant_bits in ground arith
significant_bits-least (suc fuel) value (suc w) h = elim (ℕ_discrete value 0) [
  | yes e ↦ unfold significant_bits in ground arith
  | no ne ↦ omega (
    arith,
    significant_bits-suc fuel value ne,
    significant_bits-least fuel (value / 2) w (omega (arith, pow_suc w)),
  )
]

pub width-IsWidth : (max : ℕ) → max < 2 ^ 16 → IsWidth max (width max)
width-IsWidth max small = (
  omega (arith, significant_bits-lt 16 (max % 2 ^ 16) (omega arith)),
  λ w h. significant_bits-least 16 (max % 2 ^ 16) w (omega (arith, h)),
)
