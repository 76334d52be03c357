-- ===== src/Slice/RoundTrip.antt =====
-- A read returns the value that an append wrote.
use ton_labs_types.Base.{
  ℕ, zero, suc, ◌+◌, ◌*◌, ◌/◌, ◌%◌, ◌^◌, ◌≤◌, ◌<◌, ◌≡◌, ◌≢◌, sym, ap, ◌∙◌, Bool, List, [], ◌∷◌,
  ◌++◌, arith, length, take, drop, take-append_eq, drop-append_eq, length-append, subst, ◌==◌,
  if◌then◌else◌,
}
use ton_labs_types.Types.{Result, ok}
use ton_labs_types.Bits.{to_bits}
use ton_labs_types.Bits.Laws.{length-to_bits, to_bits-mod}
use ton_labs_types.Slice.{SliceData}
use ton_labs_types.Slice.Reading.{get_next_int}
use ton_labs_types.Slice.Spec.{bits, IsWindow}
use ton_labs_types.Slice.Bits.{shifted_below}
use ton_labs_types.Slice.Window.{moved, length-bits}
use ton_labs_types.Slice.Integers.{ReadsNext, get_next_int-ReadsNext}
use native.Mathlib.Nat.{one-le-pow, mod-lt, le_refl, mod-add-div'}

-- The number that a list of bits spells.
from_bits : List Bool → ℕ
from_bits [] = 0
from_bits (b ∷ l) = (if b then 1 else 0) * 2 ^ length l + from_bits l

from_bits-to_bits : (w v : ℕ) → v < 2 ^ w → from_bits (to_bits w v) ≡ v
unfolding from_bits to_bits
from_bits-to_bits zero v h = omega arith
from_bits-to_bits (suc w) v h =
    rw (digit, length-to_bits w v)
      (omega (
        arith,
        mod-add-div' v (2 ^ w),
        ap from_bits (sym (to_bits-mod w w v (le_refl w)))
            ∙ from_bits-to_bits w (v % 2 ^ w) (mod-lt v (one-le-pow w 2 (omega arith))),
      ))
  where
    high : v / 2 ^ w < 2
    high = shifted_below 1 w v (subst (λ k. v < 2 ^ k) {x = suc w} (omega arith) h)

    digit : (if v / 2 ^ w % 2 == 1 then 1 else 0) ≡ v / 2 ^ w
    digit = ground (arith, high)

-- A number of `n` bits is known from its digits.
pub digits-injective : (n v v' : ℕ) → v < 2 ^ n → v' < 2 ^ n → to_bits n v ≡ to_bits n v' → v ≡ v'
digits-injective n v v' h h' e =
    sym (from_bits-to_bits n v h) ∙ ap from_bits e ∙ from_bits-to_bits n v' h'

module _ (s : SliceData) (value n : ℕ) (rest : List Bool) (w : IsWindow s)
    (e : bits s ≡ to_bits n value ++ rest) where
  -- The value that was written, and what was written behind it.
  abbrev pub Returns : Result (SliceData × ℕ) → Type 0
  Returns r = (s' : SliceData) × (r ≡ ok (s', value % 2 ^ n)) × IsWindow s' × (bits s' ≡ rest)

  pub room : s.data_start + n ≤ s.data_end
  room = omega (
    arith,
    ap length e,
    length-append (to_bits n value) rest,
    length-to_bits n value,
    length-bits s w,
    w.ordered,
  )

  pub reads : (r : Result (SliceData × ℕ)) → ReadsNext s n r → Returns r
  reads r (v, runs, spelled, behind) = (
    moved s n,
    runs ∙ ap (λ t. ok (moved s n, t)) same,
    behind.valid,
    behind.spells
        ∙ ap (drop n) e
        ∙ drop-append_eq n (to_bits n value) rest (length-to_bits n value),
  )
    where
      same : v ≡ value % 2 ^ n
      same =
          digits-injective n v (value % 2 ^ n) spelled.0
            (mod-lt value (one-le-pow n 2 (omega arith)))
            (spelled.1
              ∙ ap (take n) e
              ∙ take-append_eq n (to_bits n value) rest (length-to_bits n value)
              ∙ sym (to_bits-mod n n value (le_refl n)))

  -- If the window starts with the `n` bits, 1 to 64, of a value, as `append_bits` writes them,
  -- `get_next_int` returns the value modulo 2 ^ n, and a slice that spells what follows.
  pub get_next_int-value : n ≢ 0 → n ≤ 64 → Returns (get_next_int s n)
  get_next_int-value ne few = reads _ (get_next_int-ReadsNext s w n ne few room)
