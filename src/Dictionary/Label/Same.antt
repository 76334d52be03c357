-- ===== src/Dictionary/Label/Same.antt =====
-- `hml_same` finds out whether all bits of the key are equal.
use ton_labs_types.Base.{
  ℕ, zero, suc, ◌+◌, ◌-◌, ◌≤◌, ◌<◌, ◌≡◌, ◌≢◌, refl, sym, ap, ◌∙◌, Bool, true, false, not, List, [],
  ◌∷◌, ◌++◌, arith, length, drop, drop_all, replicate, Option, some, none, if◌then◌else◌, get_or,
  ◌⊎◌, inl, inr,
}
use mathlib.Core.Bool.{true≢false, false≢true}
use ton_labs_types.Types.{Result, ok}
use ton_labs_types.Bits.{bytes_bits, to_bits}
use ton_labs_types.Builder.{BuilderData}
use ton_labs_types.Builder.Append.{append_raw-Appended}
use ton_labs_types.Builder.Operations.{append_bit_bool}
use ton_labs_types.Slice.{SliceData, remaining_bits, get_bit_opt}
use ton_labs_types.Slice.Spec.{bits, IsWindow}
use ton_labs_types.Slice.SingleBit.{get_bit_opt-bit}
use ton_labs_types.Slice.Window.{length-bits, remaining}
use ton_labs_types.Dictionary.Label.{hml_same, scan_same, same_label}
use ton_labs_types.Dictionary.Label.Spec.{same_code}
use ton_labs_types.Dictionary.Label.Written.{
  Written, Writes, grown-Written, same_start, digits-Written,
}
use ton_labs_types.Dictionary.Label.Writes.{remaining-n}

-- The scan over a list of bits.
scan_bits : Bool → Bool → List Bool → Option Bool
scan_bits z o [] = some z
scan_bits z o (false ∷ l) = let rest = scan_bits true o l in if o then none else rest
scan_bits z o (true ∷ l) = let rest = scan_bits z true l in if z then none else rest

-- After a bit, the scan finds out whether the others are equal to it.
abbrev Uniform : Bool → List Bool → Option Bool → Type 0
Uniform bit l found =
    ((found ≡ some (not bit)) × (l ≡ replicate (length l) bit))
    ⊎ ((found ≡ none) × (l ≢ replicate (length l) bit))

more :
    (bit : Bool) (l : List Bool) (found : Option Bool)
    → Uniform bit l found
    → Uniform bit (bit ∷ l) found
more bit l found (inl (e, d)) = inl (e, ap (bit ∷◌) d)
more bit l found (inr (e, ne)) = inr (e, λ d. ne (ap (drop 1) d))

scan_bits-Uniform : (bit : Bool) (l : List Bool) → Uniform bit l (scan_bits (not bit) bit l)
unfolding scan_bits
scan_bits-Uniform true [] = inl (refl, refl)
scan_bits-Uniform false [] = inl (refl, refl)
scan_bits-Uniform true (true ∷ l) = more true l _ (scan_bits-Uniform true l)
scan_bits-Uniform true (false ∷ l) = inr (refl, λ d. false≢true (ap (λ t. get_or t 0 true) d))
scan_bits-Uniform false (true ∷ l) = inr (refl, λ d. true≢false (ap (λ t. get_or t 0 true) d))
scan_bits-Uniform false (false ∷ l) = more false l _ (scan_bits-Uniform false l)

module _ (key : SliceData) (window : IsWindow key) where
  scan_step :
      (left offset : ℕ) (z o bit : Bool)
      → get_bit_opt key offset ≡ ok (some bit)
      → drop offset (bits key) ≡ bit ∷ drop (offset + 1) (bits key)
      → scan_same key left (offset + 1) true o
        ≡ ok (scan_bits true o (drop (offset + 1) (bits key)))
      → scan_same key left (offset + 1) z true
        ≡ ok (scan_bits z true (drop (offset + 1) (bits key)))
      → scan_same key (suc left) offset z o ≡ ok (scan_bits z o (drop offset (bits key)))
  unfolding scan_same scan_bits
  scan_step left offset z true true found spelled r r' = rw (found, spelled) (ground (arith, r'))
  scan_step left offset z false true found spelled r r' = rw (found, spelled) (ground (arith, r'))
  scan_step left offset z true false found spelled r r' = rw (found, spelled) refl
  scan_step left offset z false false found spelled r r' = rw (found, spelled) r

  scan_same-eq :
      (left offset : ℕ) (z o : Bool)
      → key.data_start + offset + left ≡ key.data_end
      → scan_same key left offset z o ≡ ok (scan_bits z o (drop offset (bits key)))
  unfolding scan_same scan_bits
  scan_same-eq zero offset z o h =
      ap (λ l. ok (scan_bits z o l))
        (sym (drop_all offset (bits key) (omega (arith, length-bits key window))))
  scan_same-eq (suc left) offset z o h =
      let (bit, found, spelled) = get_bit_opt-bit key window offset (omega arith) in
      scan_step left offset z o bit found spelled
        (scan_same-eq left (offset + 1) true o (omega arith))
        (scan_same-eq left (offset + 1) z true (omega arith))

  bit-Writes :
      (l : List Bool) (b : BuilderData) (bit : Bool)
      → Written l b
      → length l + 1 ≤ 1023
      → Writes (l ++ (bit ∷ [])) (append_bit_bool b bit)
  unfolding append_bit_bool bytes_bits to_bits
  bit-Writes l b true w room =
      let (b', runs, a) =
        append_raw-Appended b (0xff ∷ []) 1 w.valid (omega arith, tt) (omega arith)
          (omega (arith, w.length_in_bits)) in
      (b', runs, grown-Written l (true ∷ []) b b' w a)
  bit-Writes l b false w room =
      let (b', runs, a) =
        append_raw-Appended b (0 ∷ []) 1 w.valid (omega arith, tt) (omega arith)
          (omega (arith, w.length_in_bits)) in
      (b', runs, grown-Written l (false ∷ []) b b' w a)

  same_label-Writes :
      (bit : Bool) (n len : ℕ)
      → len < 64
      → (b : BuilderData) × (same_label n len (some (not bit)) ≡ ok (some b))
        × Written (same_code len bit n) b
  unfolding same_label
  same_label-Writes bit n len few =
      let (b, e, w) = same_start in
      let (b1, e1, w1) = bit-Writes (true ∷ true ∷ []) b bit w (omega arith) in
      let (b2, e2, w2) = digits-Written (true ∷ true ∷ bit ∷ []) b1 n len w1 few (omega arith) in
      (b2, rw (e, twice bit, e1, e2) refl, w2)
    where
      twice : (bit : Bool) → not (not bit) ≡ bit
      twice true = refl
      twice false = refl

  -- The label for equal bits, where all bits of the key are equal.
  abbrev pub SameOutcome : ℕ → Type 0
  SameOutcome len =
      ((bit : Bool) × (bits key ≡ replicate (length (bits key)) bit)
        × (b : BuilderData) × (hml_same key len ≡ ok (some b))
        × Written (same_code len bit (length (bits key))) b)
      ⊎ ((hml_same key len ≡ ok none)
          × ((bit : Bool) → bits key ≢ replicate (length (bits key)) bit))

  scanned :
      (bit : Bool) (l : List Bool)
      → bits key ≡ bit ∷ l
      → scan_same key (remaining_bits key) 0 false false ≡ ok (scan_bits (not bit) bit l)
  unfolding scan_bits
  scanned true l e =
      rw
        (
          remaining-n key window,
          scan_same-eq (key.data_end - key.data_start) 0 false false
              (omega (arith, window.ordered)),
          e,
        )
        refl
  scanned false l e =
      rw
        (
          remaining-n key window,
          scan_same-eq (key.data_end - key.data_start) 0 false false
              (omega (arith, window.ordered)),
          e,
        )
        refl

  -- Of a key that is not empty, `hml_same` writes the label if and only if all bits are equal.
  pub hml_same-outcome :
      (len : ℕ) (bit : Bool) (l : List Bool) → len < 64 → bits key ≡ bit ∷ l → SameOutcome len
  hml_same-outcome len bit l few e = found (scan_bits-Uniform bit l)
    where
      runs :
          (o : Option Bool) (r : Result (Option BuilderData))
          → scan_bits (not bit) bit l ≡ o
          → same_label (length (bits key)) len o ≡ r
          → hml_same key len ≡ r
      runs o r f p = unfold hml_same in rw (scanned bit l e, f, remaining key window) p

      found : Uniform bit l (scan_bits (not bit) bit l) → SameOutcome len
      found (inl (f, d)) =
          let (b, p, w) = same_label-Writes bit (length (bits key)) len few in
          inl (
            bit,
            e ∙ ap (bit ∷◌) d ∙ ap (λ k. replicate (length k) bit) (sym e),
            b,
            runs (some (not bit)) (ok (some b)) f p,
            w,
          )
      found (inr (f, ne)) = inr (
        runs none (ok none) f (unfold same_label in refl),
        λ other d.
            let d' = sym e ∙ d ∙ ap (λ k. replicate (length k) other) e in
            ne (ap (drop 1) d' ∙ ap (replicate (length l)) (sym (ap (λ t. get_or t 0 bit) d'))),
      )
