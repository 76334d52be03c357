-- ===== src/Dictionary/Label/Shortest.antt =====
-- `hm_label` writes the shortest label.
use ton_labs_types.Base.{
  ℕ, ◌+◌, ◌-◌, ◌*◌, ◌%◌, ◌^◌, ◌≤◌, ◌<◌, ◌≡◌, ◌≢◌, refl, sym, ap, subst, length, false, [], ◌∷◌,
  Bool, List, arith, drop, Option, some, none, get_elem?-drop, inl, inr,
}
use ton_labs_types.Types.{ok}
use ton_labs_types.Builder.{BuilderData}
use ton_labs_types.Slice.{SliceData, is_empty}
use ton_labs_types.Slice.Spec.{bits, IsWindow}
use ton_labs_types.Slice.Window.{length-bits}
use ton_labs_types.Dictionary.Label.{hm_label, hm_empty, hml_long, hml_short, hml_same, choose}
use ton_labs_types.Dictionary.Label.Spec.{long_code, short_code, IsLabel, IsWidth, IsShortestLabel}
use ton_labs_types.Dictionary.Label.Width.{width, significant_bits-le, width-IsWidth}
use ton_labs_types.Dictionary.Label.Written.{Written, empty_label}
use ton_labs_types.Dictionary.Label.Writes.{hml_long-Writes, hml_short-Writes, hml_short-none}
use ton_labs_types.Dictionary.Label.Same.{SameOutcome, hml_same-outcome}
use native.Mathlib.Decide.{dec_le, dec_lt}
use ton_labs_types.Bits.Common.{no_bits}
use ton_labs_types.Dictionary.Label.Choice.{IsShortest, shortest, Short, Same, choose-Chosen}

module _ (key : SliceData) (window : IsWindow key) (max : ℕ)
    (some_bits : key.data_start < key.data_end) (positive : max ≢ 0)
    (fits : 2 + width max + (key.data_end - key.data_start) ≤ 1023) where
  abbrev n : ℕ
  n = key.data_end - key.data_start

  Short-option :
      (long : BuilderData) (w : Written (long_code (width max) (bits key)) long)
      → (o : Option BuilderData) × (hml_short key ≡ ok o) × Short (width max) (bits key) long w o
  Short-option long w = elim (dec_le (2 + 2 * n) 1023) [
    | yes h ↦ let (b, e, v) = hml_short-Writes key window h in (some b, e, inl (b, refl, v))
    | no h ↦ (
      none,
      hml_short-none key window (omega arith) (omega arith),
      inr (refl, omega (arith, length-bits key window, significant_bits-le 16 (max % 2 ^ 16))),
    )
  ]

  Same-option :
      (long : BuilderData) (w : Written (long_code (width max) (bits key)) long)
      → (o : Option BuilderData) × (hml_same key (width max) ≡ ok o)
        × Same (width max) (bits key) long w o
  Same-option long w =
      let (bit, e, d) = get_elem?-drop 0 (bits key) (omega (arith, length-bits key window)) in
      option (
        hml_same-outcome key window (width max) bit (drop 1 (bits key))
          (omega (arith, significant_bits-le 16 (max % 2 ^ 16))) d)
    where
      option :
          SameOutcome key window (width max)
          → (o : Option BuilderData) × (hml_same key (width max) ≡ ok o)
            × Same (width max) (bits key) long w o
      option (inl (bit, d, b, e, v)) = (some b, e, inl (bit, d, b, refl, v))
      option (inr (e, ne)) = (none, e, inr (refl, ne))

  -- Of a key that is not empty `hm_label` writes the shortest label.
  pub nonempty-IsShortest :
      (b : BuilderData) × (code : List Bool) × (hm_label key max ≡ ok b)
      × Written code b
      × IsShortest (width max) (bits key) code
  nonempty-IsShortest =
      let (long, e, w) =
        hml_long-Writes key window (width max)
          (omega (arith, significant_bits-le 16 (max % 2 ^ 16))) fits in
      let (short, e', p) = Short-option long w in
      let (same, e'', q) = Same-option long w in
      let (code, v, least) = choose-Chosen (width max) (bits key) long w short same p q in
      (choose long short same, code, runs long short same e e' e'', v, least)
    where
      runs :
          (long : BuilderData) (short same : Option BuilderData)
          → hml_long key (width max) ≡ ok long
          → hml_short key ≡ ok short
          → hml_same key (width max) ≡ ok same
          → hm_label key max ≡ ok (choose long short same)
      runs long short same e e' e'' =
          unfold hm_label in unfold is_empty in ground (arith, e, e', e'')

-- The widths of the same numbers are the same.
width_unique : (max w w' : ℕ) → IsWidth max w → IsWidth max w' → w ≡ w'
width_unique max w w' (h, least) (h', least') = omega (arith, least w' h', least' w h)

-- The shortest label for the number of bits of `max` is the shortest of the grammar.
of_grammar :
    (max w : ℕ) (key code : List Bool)
    → length key ≤ max
    → IsWidth max w
    → IsShortest w key code
    → IsShortestLabel max key code
of_grammar max w key code below is (label, least) = (
  (below, w, is, label),
  λ other (_, w', is', label').
      least other (subst (λ k. IsLabel k key other) (width_unique max w' w is' is) label'),
)

module _ (key : SliceData) (window : IsWindow key) (max : ℕ)
    (below : key.data_end - key.data_start ≤ max) (small : max < 2 ^ 16)
    (fits : 2 + width max + (key.data_end - key.data_start) ≤ 1023) where
  -- Of a key of at most `max` bits, `max` below 2 ^ 16, whose long label has at most 1023 bits,
  -- `hm_label` writes a label of the grammar for lengths up to `max`, and no label of this grammar
  -- for the key is shorter. An empty key is among them.
  pub hm_label-IsShortest :
      (b : BuilderData) × (code : List Bool) × (hm_label key max ≡ ok b)
      × Written code b
      × IsShortestLabel max (bits key) code
  hm_label-IsShortest = elim (dec_lt key.data_start key.data_end) [
    | yes h ↦
        let (b, code, runs, w, s) = nonempty-IsShortest key window max h (omega arith) fits in
        (
          b,
          code,
          runs,
          w,
          of_grammar max (width max) (bits key) code (omega (arith, length-bits key window))
              (width-IsWidth max small) s,
        )
    | no h ↦
        let (b, runs, w) = empty_label in
        let none_left = no_bits (bits key) (omega (arith, length-bits key window)) in
        (
          b,
          false ∷ false ∷ [],
          unfold hm_label is_empty hm_empty in ground (arith, runs),
          w,
          of_grammar max (width max) (bits key) (false ∷ false ∷ [])
              (omega (arith, length-bits key window)) (width-IsWidth max small)
              (shortest (width max) (bits key) (false ∷ false ∷ [])
                (inr (inl (ap short_code (sym none_left)))) (omega arith) (omega arith)
                (λ bit d. omega arith)),
        )
  ]
