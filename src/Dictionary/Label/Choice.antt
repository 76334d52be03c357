-- ===== src/Dictionary/Label/Choice.antt =====
-- The comparison of the labels in `hm_label`.
use ton_labs_types.Base.{
  ℕ, ◌+◌, ◌*◌, ◌≤◌, ◌<◌, ◌≡◌, ◌≢◌, refl, sym, ap, ◌∙◌, Bool, true, false, List, ◌∷◌, subst, arith,
  length, length-append, length-replicate, leb, replicate, Option, some, none, ◌⊎◌, inl, inr,
  if◌then◌else◌,
}
use ton_labs_types.Bits.{to_bits}
use ton_labs_types.Bits.Laws.{length-to_bits}
use ton_labs_types.Builder.{BuilderData}
use ton_labs_types.Dictionary.Label.{choose}
use ton_labs_types.Dictionary.Label.Spec.{IsLabel, long_code, short_code, same_code}
use ton_labs_types.Dictionary.Label.Written.{Written}
use native.Mathlib.Decide.{dec_le}

abbrev pub IsShortest : ℕ → List Bool → List Bool → Type 0
IsShortest len key code =
    IsLabel len key code
    × ((other : List Bool) → IsLabel len key other → length code ≤ length other)

module _ (len : ℕ) (key : List Bool) where
  pub length-long : length (long_code len key) ≡ 2 + len + length key
  length-long =
      omega (arith, length-append (to_bits len (length key)) key, length-to_bits len (length key))

  length-short : length (short_code key) ≡ 2 + 2 * length key
  length-short = omega (
    arith,
    length-append (replicate (length key) true) (false ∷ key),
    length-replicate (length key) true,
  )

  length-same : (bit : Bool) → length (same_code len bit (length key)) ≡ 3 + len
  length-same bit = omega (arith, length-to_bits len (length key))

  -- No label is shorter than the three that there may be.
  pub shortest :
      (code : List Bool)
      → IsLabel len key code
      → length code ≤ 2 + len + length key
      → length code ≤ 2 + 2 * length key
      → ((bit : Bool) → key ≡ replicate (length key) bit → length code ≤ 3 + len)
      → IsShortest len key code
  shortest code label below_long below_short below_same = (label, below)
    where
      below : (other : List Bool) → IsLabel len key other → length code ≤ length other
      below other (inl e) = omega (arith, ap length e, length-long)
      below other (inr (inl e)) = omega (arith, ap length e, length-short)
      below other (inr (inr (bit, d, e))) =
          omega (arith, ap length e, length-same bit, below_same bit d)

  -- The labels that `hm_label` compares.
  module _ (long : BuilderData) (w : Written (long_code len key) long) where
    abbrev pub Short : Option BuilderData → Type 0
    Short o =
        ((b : BuilderData) × (o ≡ some b) × Written (short_code key) b)
        ⊎ ((o ≡ none) × (len < length key))

    abbrev pub Same : Option BuilderData → Type 0
    Same o =
        ((bit : Bool) × (key ≡ replicate (length key) bit)
          × (b : BuilderData) × (o ≡ some b)
          × Written (same_code len bit (length key)) b)
        ⊎ ((o ≡ none) × ((bit : Bool) → key ≢ replicate (length key) bit))

    abbrev pub Chosen : BuilderData → Type 0
    Chosen b = (code : List Bool) × Written code b × IsShortest len key code

    choose_long :
        ((bit : Bool) → key ≡ replicate (length key) bit → length key ≤ 1)
        → len < length key
        → Chosen long
    choose_long no_same h = (
      long_code len key,
      w,
      shortest (long_code len key) (inl refl) (omega (arith, length-long))
          (omega (arith, length-long)) (λ bit d. omega (arith, length-long, no_same bit d)),
    )

    choose_short :
        (b : BuilderData)
        → Written (short_code key) b
        → ((bit : Bool) → key ≡ replicate (length key) bit → 2 * length key ≤ 1 + len)
        → length key ≤ len
        → Chosen b
    choose_short b v no_same h = (
      short_code key,
      v,
      shortest (short_code key) (inr (inl refl)) (omega (arith, length-short))
          (omega (arith, length-short)) (λ bit d. omega (arith, length-short, no_same bit d)),
    )

    choose_same :
        (b : BuilderData) (bit : Bool)
        → Written (same_code len bit (length key)) b
        → key ≡ replicate (length key) bit
        → 2 ≤ length key
        → 1 + len ≤ 2 * length key
        → Chosen b
    choose_same b bit v d h h' = (
      same_code len bit (length key),
      v,
      shortest (same_code len bit (length key)) (inr (inr (bit, d, refl)))
          (omega (arith, length-same bit)) (omega (arith, length-same bit))
          (λ other d'. omega (arith, length-same bit)),
    )

    long_bits : long.length_in_bits ≡ 2 + len + length key
    long_bits = w.length_in_bits ∙ length-long

    short_bits :
        (b : BuilderData) → Written (short_code key) b → b.length_in_bits ≡ 2 + 2 * length key
    short_bits b v = v.length_in_bits ∙ length-short

    same_bits :
        (b : BuilderData) (bit : Bool)
        → Written (same_code len bit (length key)) b
        → b.length_in_bits ≡ 3 + len
    same_bits b bit v = v.length_in_bits ∙ length-same bit

    short_or_long :
        (short : BuilderData)
        → Written (short_code key) short
        → ((bit : Bool)
            → key ≡ replicate (length key) bit
            → length key ≤ 1 ⊎ 2 * length key ≤ 1 + len)
        → Chosen (if leb short.length_in_bits long.length_in_bits then short else long)
    short_or_long short v no_same = elim (dec_le (length key) len) [
      | yes h ↦ subst Chosen (sym (ground (arith, long_bits, short_bits short v))) (
          choose_short short v (λ bit d. elim (no_same bit d) [ inl p ↦ omega arith | inr p ↦ p ])
            h)
      | no h ↦ subst Chosen (sym (ground (arith, long_bits, short_bits short v))) (
          choose_long (λ bit d. elim (no_same bit d) [ inl p ↦ p | inr p ↦ omega arith ])
            (omega arith))
    ]

    -- The test of `hm_label` for the label of equal bits, with both others there.
    three :
        (short same : BuilderData) (bit : Bool)
        → Written (short_code key) short
        → key ≡ replicate (length key) bit
        → Written (same_code len bit (length key)) same
        → Chosen (choose long (some short) (some same))
    unfolding choose
    three short same bit v d v' = elim (dec_le 2 (length key)) [
      | no p ↦
          subst Chosen (sym (ground (arith, long_bits, short_bits short v, same_bits same bit v')))
            (short_or_long short v (λ other d'. inl (omega arith)))
      | yes p ↦ elim (dec_le (2 + len) (2 * length key)) [
        | yes q ↦
            subst Chosen
              (sym (ground (arith, long_bits, short_bits short v, same_bits same bit v')))
              (choose_same same bit v' d p (omega arith))
        | no q ↦
            subst Chosen
              (sym (ground (arith, long_bits, short_bits short v, same_bits same bit v')))
              (short_or_long short v (λ other d'. inr (omega arith)))
      ]
    ]

    two :
        (same : BuilderData) (bit : Bool)
        → len < length key
        → key ≡ replicate (length key) bit
        → Written (same_code len bit (length key)) same
        → Chosen (choose long none (some same))
    unfolding choose
    two same bit h d v = elim (dec_le 2 (length key)) [
      | yes p ↦
          subst Chosen (sym (ground (arith, long_bits, same_bits same bit v)))
            (choose_same same bit v d p (omega arith))
      | no p ↦
          subst Chosen (sym (ground (arith, long_bits, same_bits same bit v)))
            (choose_long (λ other d'. omega arith) h)
    ]

    pub choose-Chosen :
        (short same : Option BuilderData)
        → Short short
        → Same same
        → Chosen (choose long short same)
    choose-Chosen short same (inl (b, e, v)) (inl (bit, d, b', e', v')) =
        rw (e, e') (three b b' bit v d v')
    choose-Chosen short same (inl (b, e, v)) (inr (e', ne)) =
        unfold choose in rw (e, e') (short_or_long b v (λ bit d. absurd (ne bit d)))
    choose-Chosen short same (inr (e, h)) (inl (bit, d, b', e', v')) =
        rw (e, e') (two b' bit h d v')
    choose-Chosen short same (inr (e, h)) (inr (e', ne)) =
        unfold choose in rw (e, e') (choose_long (λ bit d. absurd (ne bit d)) h)
