-- ===== src/Bits/Fields.antt =====
-- `|` of two numbers whose binary digits do not meet is their sum.
use Prim.Native.Nat.{digits, bit_or-bitwise}
use ton_labs_types.Base.{
  ℕ, zero, suc, ◌+◌, ◌*◌, ◌/◌, ◌^◌, ◌≤◌, ◌<◌, max, bit_or, ◌≡◌, ap, ◌∙◌, arith,
}
use native.Mathlib.Nat.{pow-suc, le_refl}

-- The high number `a` has zeros in its `k` low digits, and the low one fits there.
disjoint_digits :
    (fuel k q a low : ℕ)
    → a ≤ fuel
    → a ≡ q * 2 ^ k
    → low < 2 ^ k
    → digits (λ d. d) max fuel a low ≡ a + low
disjoint_digits zero k q zero low covered high small = omega arith
disjoint_digits (suc fuel) k q zero low covered high small = omega arith
disjoint_digits zero k q (suc a) low covered high small = absurd (omega arith)
disjoint_digits (suc fuel) zero q (suc a) low covered high small = omega (
  arith,
  disjoint_digits fuel 0 (suc a / 2) (suc a / 2) (low / 2) (omega arith) (omega arith)
      (omega arith),
)
disjoint_digits (suc fuel) (suc k) q (suc a) low covered high small = omega (
  arith,
  doubled,
  pow-suc 2 k,
  disjoint_digits fuel k q (suc a / 2) (low / 2) (omega arith) (omega (arith, doubled))
      (omega (arith, pow-suc 2 k)),
)
  where
    doubled : suc a ≡ 2 * (q * 2 ^ k)
    doubled = omega (arith, ap (λ (t : ℕ). q * t) (pow-suc 2 k))

pub bit_or-add : (k q r : ℕ) → r < 2 ^ k → bit_or (q * 2 ^ k) r ≡ q * 2 ^ k + r
bit_or-add k q r h =
    bit_or-bitwise (q * 2 ^ k) r
    ∙ disjoint_digits (q * 2 ^ k) k q (q * 2 ^ k) r (le_refl _) (omega arith) h
