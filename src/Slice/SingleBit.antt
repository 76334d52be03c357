-- ===== src/Slice/SingleBit.antt =====
-- Single bits: `get_bit_opt`, `get_bit` and `get_next_bit`.
use ton_labs_types.Base.{
  ℕ, suc, ◌+◌, ◌-◌, ◌/◌, ◌%◌, ◌^◌, ◌≤◌, ◌<◌, ◌≡◌, refl, sym, ap, ◌∙◌, Bool, false, not, [], ◌∷◌,
  subst, arith, length, take, drop, get_or, get_elem?-drop, some, ◌==◌,
}
use ton_labs_types.Types.{ok, unwrap, fail, cell_underflow}
use ton_labs_types.Bits.{to_bits, AllBytes}
use ton_labs_types.Bits.Cut.{AllBytes-drop}
use ton_labs_types.Cell.Tree as Tree
use ton_labs_types.Slice.{SliceData, remaining_bits, get_bit_opt, get_bit, data_at}
use ton_labs_types.Slice.Reading.{get_bits, get_next_bit}
use ton_labs_types.Slice.Spec.{bits, IsWindow}
use ton_labs_types.Slice.Bits.{get_bits-Reads}
use ton_labs_types.Slice.Window.{length-bits, moved, move_by-Moved}

one_digit : (v : ℕ) (bit : Bool) → v < 2 → to_bits 1 v ≡ bit ∷ [] → not (v == 0) ≡ bit
unfolding to_bits
one_digit v bit small e = ground (arith, ap (λ l. get_or l 0 false) e)

module _ (s : SliceData) (w : IsWindow s) where
  module _ (offset x : ℕ) (inside : s.data_start + offset < s.data_end) (small : x < 256)
      (here : data_at s ((s.data_start + offset) / 8) ≡ ok x) where
    one_bit : get_bits s offset 1 ≡ ok (x / 2 ^ (7 - (s.data_start + offset) % 8) % 2)
    unfolding get_bits remaining_bits
    one_bit = ground (arith, here)

    found_bit :
        get_bit_opt s offset ≡ ok (some (not (x / 2 ^ (7 - (s.data_start + offset) % 8) % 2 == 0)))
    unfolding get_bit_opt remaining_bits
    found_bit = ground (arith, here)

    -- A bit is what `get_bits` reads of one bit.
    bit_of_bits :
        (v : ℕ) → get_bits s offset 1 ≡ ok v → get_bit_opt s offset ≡ ok (some (not (v == 0)))
    bit_of_bits v read = ground (arith, found_bit, one_bit, read)

  data_at-byte :
      (q : ℕ) → q < length (Tree.data_bytes s.cell) → (x : ℕ) × (data_at s q ≡ ok x) × (x < 256)
  unfolding data_at
  data_at-byte q inside =
      let (x, e, d) = get_elem?-drop q (Tree.data_bytes s.cell) inside in
      (x, ap unwrap e, (subst AllBytes d (AllBytes-drop q (Tree.data_bytes s.cell) w.all_bytes)).0)

  -- `get_bit_opt` within the window is the bit at the offset.
  pub get_bit_opt-bit :
      (offset : ℕ)
      → s.data_start + offset < s.data_end
      → (bit : Bool) × (get_bit_opt s offset ≡ ok (some bit))
        × (drop offset (bits s) ≡ bit ∷ drop (offset + 1) (bits s))
  get_bit_opt-bit offset inside =
      let (x, here, small) = data_at-byte ((s.data_start + offset) / 8) (omega (arith, w.inside)) in
      let (v, read, (low, digits)) =
        get_bits-Reads s offset 1 w (omega arith) (omega arith) (omega arith) in
      let (bit, e, d) = get_elem?-drop offset (bits s) (omega (arith, length-bits s w)) in
      let same = one_digit v bit low (digits ∙ ap (take 1) d) in
      (
        bit,
        bit_of_bits offset x inside small here v read ∙ ap (λ t. ok (some t)) same,
        d ∙ ap (λ k. bit ∷ drop k (bits s)) {x = suc offset} {y = offset + 1} (omega arith),
      )

  -- `get_next_bit` of a window that is not empty gives its first bit, and the window behind it.
  pub get_next_bit-Moved :
      s.data_start < s.data_end
      → (bit : Bool) × (get_next_bit s ≡ ok (moved s 1, bit))
        × (bits s ≡ bit ∷ bits (moved s 1))
        × IsWindow (moved s 1)
  unfolding get_next_bit get_bit
  get_next_bit-Moved inside =
      let (bit, found, spelled) = get_bit_opt-bit 0 (omega arith) in
      let (moves, behind) = move_by-Moved s w 1 (omega arith) in
      (bit, rw (found, moves) refl, spelled ∙ ap (bit ∷◌) (sym behind.spells), behind.valid)

  -- On an empty window it is an underflow.
  pub get_next_bit-empty : s.data_end ≤ s.data_start → get_next_bit s ≡ fail cell_underflow
  unfolding get_next_bit get_bit get_bit_opt remaining_bits
  get_next_bit-empty h = ground arith
