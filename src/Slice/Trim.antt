-- ===== src/Slice/Trim.antt =====
-- `trim_right` takes a one and the zeros behind it off the end of a slice.
use ton_labs_types.Base.{
  ℕ, zero, suc, ◌+◌, ◌-◌, ◌<◌, ◌≡◌, refl, sym, ap, ap₂, ◌∙◌, Bool, true, false, ◌∷◌, ◌++◌, subst,
  arith, length, take, drop, drop_all, take-take, replicate, some, ◌⊎◌, inl, inr, take-append-drop,
}
use ton_labs_types.Types.{Result, ok}
use ton_labs_types.Bits.{bytes_bits}
use ton_labs_types.Cell.Tree as Tree
use ton_labs_types.Slice.{SliceData, trim_right, trim_from, get_bit_opt}
use ton_labs_types.Slice.Spec.{bits, IsWindow}
use ton_labs_types.Slice.SingleBit.{get_bit_opt-bit}
use ton_labs_types.Slice.Window.{length-bits, remaining}

module _ (s : SliceData) (w : IsWindow s) where
  -- The window up to an offset.
  abbrev up_to : ℕ → SliceData
  up_to offset = record s { data_end = s.data_start + offset }

  -- The last one and what follows are cut off, or there is none and the slice is as it was.
  abbrev pub Trims : Result SliceData → Type 0
  Trims r =
      ((t : SliceData) × (after : ℕ) × (r ≡ ok t)
        × (bits s ≡ bits t ++ (true ∷ replicate after false))
        × IsWindow t)
      ⊎ ((r ≡ ok s) × (bits s ≡ replicate (length (bits s)) false))

  cut_here :
      (offset after : ℕ)
      → s.data_start + offset < s.data_end
      → drop offset (bits s) ≡ true ∷ replicate after false
      → (bits s ≡ bits (up_to offset) ++ (true ∷ replicate after false)) × IsWindow (up_to offset)
  cut_here offset after h e = (
    sym (take-append-drop offset (bits s))
        ∙ ap₂ (λ x y. x ++ y)
            (take-take offset (s.data_end - s.data_start)
                (drop s.data_start (bytes_bits (Tree.data_bytes s.cell))) (omega arith)
              ∙ ap (λ k. take k (drop s.data_start (bytes_bits (Tree.data_bytes s.cell))))
                  {x = offset} {y = s.data_start + offset - s.data_start} (omega arith))
            e,
    record { ordered = omega arith; inside = omega (arith, w.inside); all_bytes = w.all_bytes },
  )

  trim_from-Trims :
      (offset after : ℕ)
      → s.data_start + offset + after ≡ s.data_end
      → drop offset (bits s) ≡ replicate after false
      → Trims (trim_from s offset)
  unfolding trim_from
  trim_from-Trims zero after h e =
      inr (refl, e ∙ ap (λ k. replicate k false) (omega (arith, length-bits s w)))
  trim_from-Trims (suc offset) after h e =
      let (bit, found, spelled) = get_bit_opt-bit s w offset (omega arith) in
      let tail =
        spelled
        ∙ ap (λ k. bit ∷ drop k (bits s)) {x = offset + 1} {y = suc offset} (omega arith)
        ∙ ap (bit ∷◌) e in
      at_bit bit found tail (λ z.
        trim_from-Trims offset (suc after) (omega arith)
          (tail ∙ ap (λ x. x ∷ replicate after false) z))
    where
      at_bit :
          (bit : Bool)
          → get_bit_opt s offset ≡ ok (some bit)
          → drop offset (bits s) ≡ bit ∷ replicate after false
          → (bit ≡ false → Trims (trim_from s offset))
          → Trims (trim_from s (suc offset))
      at_bit true found tail rest =
          let (cut, window) = cut_here offset after (omega arith) tail in
          inl (up_to offset, after, rw found refl, cut, window)
      at_bit false found tail rest = rw found (rest refl)

  -- `trim_right` cuts the last one and the zeros behind it off the window, or leaves a window of
  -- zeros as it is.
  pub trim_right-Trims : Trims (trim_right s)
  unfolding trim_right
  trim_right-Trims =
      subst (λ k. Trims (trim_from s k)) (sym (remaining s w ∙ length-bits s w))
        (trim_from-Trims (s.data_end - s.data_start) 0 (omega (arith, w.ordered))
          (drop_all (s.data_end - s.data_start) (bits s) (omega (arith, length-bits s w))))
