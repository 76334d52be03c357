-- ===== src/Dictionary/LabelReader/Unary.antt =====
-- The unary number of a short label: its loop always ends.
use ton_labs_types.Base.{
  ℕ, zero, suc, ◌+◌, ◌<◌, ◌≡◌, refl, ap, ap₂, Bool, true, false, List, [], ◌∷◌, ◌++◌, arith, length,
  replicate, ◌⊎◌, inl, inr,
}
use ton_labs_types.Types.{Result, ok, fail, cell_underflow}
use ton_labs_types.Slice.{SliceData, remaining_bits}
use ton_labs_types.Slice.Reading.{get_next_bit}
use ton_labs_types.Slice.Spec.{bits, IsWindow}
use ton_labs_types.Slice.SingleBit.{get_next_bit-empty}
use ton_labs_types.Slice.Window.{length-bits, remaining, moved}
use ton_labs_types.Dictionary.LabelReader.{count_ones, unary}
use ton_labs_types.Dictionary.LabelReader.Parts.{next_bit}

-- A number of ones and a zero, or only ones and an underflow.
abbrev pub UnaryOutcome : SliceData → List Bool → ℕ → Result (SliceData × ℕ) → Type 0
UnaryOutcome s l len r =
    ((n : ℕ) × (rest : List Bool) × (l ≡ replicate n true ++ (false ∷ rest))
      × (r ≡ ok (moved s (n + 1), len + n)))
    ⊎ ((l ≡ replicate (length l) true) × (r ≡ fail cell_underflow))

count_ones-outcome :
    (l : List Bool) (fuel len : ℕ) (s : SliceData) (w : IsWindow s)
    → bits s ≡ l
    → length l < fuel
    → UnaryOutcome s l len (count_ones fuel s len)
unfolding count_ones
count_ones-outcome l zero len s w e h = absurd (omega arith)
count_ones-outcome [] (suc fuel) len s w e h =
    inr (refl, rw (get_next_bit-empty s w (omega (arith, ap length e, length-bits s w))) refl)
count_ones-outcome (false ∷ l) (suc fuel) len s w e h =
    let (read, p) = next_bit s w false l e in
    inl (
      0,
      l,
      refl,
      rw read (
          ap₂ (λ k m. ok (moved s k, m)) {x = 1} {y = 0 + 1} {u = len} {v = len + 0} (omega arith)
            (omega arith)),
    )
count_ones-outcome (true ∷ l) (suc fuel) len s w e h =
    let (read, p) = next_bit s w true l e in
    longer (count_ones-outcome l fuel (len + 1) (moved s 1) p.valid p.spells (omega arith)) read
  where
    longer :
        UnaryOutcome (moved s 1) l (len + 1) (count_ones fuel (moved s 1) (len + 1))
        → get_next_bit s ≡ ok (moved s 1, true)
        → UnaryOutcome s (true ∷ l) len (count_ones (suc fuel) s len)
    longer (inl (n, rest, d, runs)) read = inl (
      suc n,
      rest,
      ap (true ∷◌) d,
      rw (read, runs)
          (ap₂ (λ k m. ok (record s { data_start = k }, m)) (omega arith) (omega arith)),
    )
    longer (inr (d, runs)) read = inr (ap (true ∷◌) d, rw (read, runs) refl)

-- On every window the loop ends within its rounds: after some ones and a zero it gives their number
-- and the slice behind them, and on a window of ones it is an underflow.
pub unary-outcome : (s : SliceData) → IsWindow s → UnaryOutcome s (bits s) 0 (unary s)
unfolding unary
unary-outcome s w =
    count_ones-outcome (bits s) (remaining_bits s + 1) 0 s w refl (omega (arith, remaining s w))
