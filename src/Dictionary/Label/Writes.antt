-- ===== src/Dictionary/Label/Writes.antt =====
-- Each encoding writes its bits, or is `none` where it does not exist or does not fit.
use ton_labs_types.Base.{
  ℕ, ◌+◌, ◌-◌, ◌*◌, ◌/◌, ◌%◌, ◌^◌, ◌≤◌, ◌<◌, ◌≡◌, ◌≢◌, refl, sym, ap, ◌∙◌, Bool, true, false, not,
  List, [], ◌∷◌, ◌++◌, append-nil, append_assoc, subst, arith, length, length-append,
  length-replicate, replicate_add, replicate, some, none, if◌then◌else◌, ◌==◌,
}
use ton_labs_types.Types.{Result, ok}
use native.Mathlib.Decide.{ℕ_discrete}
use ton_labs_types.Bits.{bytes_bits, to_bits}
use ton_labs_types.Bits.Laws.{length-to_bits}
use ton_labs_types.Builder.{BuilderData, with_raw}
use ton_labs_types.Builder.Append.{append_raw-Appended}
use ton_labs_types.Builder.Operations.{append_bits, append_bit_zero}
use ton_labs_types.Slice.{SliceData, remaining_bits}
use ton_labs_types.Slice.Spec.{bits, IsWindow}
use ton_labs_types.Slice.Window.{length-bits, remaining}
use ton_labs_types.Slice.Bytes.{append_bytestring-Appended, append_bytestring-overflow}
use ton_labs_types.Slice.Transfer.{append_bytestring}
use ton_labs_types.Dictionary.Label.{hml_long, hml_short, append_ones}
use ton_labs_types.Dictionary.Label.Spec.{long_code, short_code}
use ton_labs_types.Dictionary.Label.Written.{
  Written, Writes, grown-Written, long_start, short_start, digits-Written, some_ones,
  append_ones-Writes,
}

module _ (key : SliceData) (window : IsWindow key) where
  abbrev n : ℕ
  n = key.data_end - key.data_start

  pub remaining-n : remaining_bits key ≡ n
  remaining-n = remaining key window ∙ length-bits key window

  -- The key behind what is written.
  key-Writes :
      (l : List Bool) (b : BuilderData)
      → Written l b
      → length l + n ≤ 1023
      → Writes (l ++ bits key) (append_bytestring b key)
  key-Writes l b w room =
      let (b', runs, a) =
        append_bytestring-Appended key window b w.valid (omega (arith, w.length_in_bits)) in
      (b', runs, grown-Written l (bits key) b b' w a)

  pub hml_long-Writes :
      (len : ℕ)
      → len < 64
      → 2 + len + n ≤ 1023
      → Writes (long_code len (bits key)) (hml_long key len)
  unfolding hml_long
  hml_long-Writes len few room =
      let (b, e, w) = long_start in
      let (b', e', w') = digits-Written (true ∷ false ∷ []) b n len w few (omega arith) in
      let (b'', e'', w'') =
        key-Writes (true ∷ false ∷ to_bits len n) b' w' (omega (arith, length-to_bits len n)) in
      (
        b'',
        rw (e, remaining-n, e') e'',
        subst (λ m. Written (true ∷ false ∷ (to_bits len m ++ bits key)) b'')
            (sym (length-bits key window)) w'',
      )

  zero-Writes :
      (l : List Bool) (b : BuilderData)
      → Written l b
      → length l + 1 ≤ 1023
      → Writes (l ++ (false ∷ [])) (append_bit_zero b)
  unfolding append_bit_zero bytes_bits to_bits
  zero-Writes l b w room =
      let (b', runs, a) =
        append_raw-Appended b (0 ∷ []) 1 w.valid (omega arith, tt) (omega arith)
          (omega (arith, w.length_in_bits)) in
      (b', runs, grown-Written l (false ∷ []) b b' w a)

  -- The ones that `hml_short` writes behind the blocks of 32.
  abbrev tail_ones : BuilderData → Result BuilderData
  tail_ones blocks =
      if not (n % 32 == 0) then append_bits blocks (2 ^ 32 - 1) (n % 32) else ok blocks

  tail-Writes :
      (l : List Bool) (b : BuilderData)
      → Written l b
      → length l + n % 32 ≤ 1023
      → Writes (l ++ replicate (n % 32) true) (tail_ones b)
  tail-Writes l b w room = elim (ℕ_discrete (n % 32) 0) [
    | yes e ↦ (b, none_left e, rw e (subst (λ t. Written t b) (sym (append-nil l)) w))
    | no ne ↦
        let (b', runs, w') = some_ones l b (n % 32) w (omega arith) room in
        (b', some_left b' ne runs, w')
  ]
    where
      none_left : n % 32 ≡ 0 → tail_ones b ≡ ok b
      none_left e = rw e refl

      some_left :
          (b' : BuilderData)
          → n % 32 ≢ 0
          → append_bits b (2 ^ 32 - 1) (n % 32) ≡ ok b'
          → tail_ones b ≡ ok b'
      some_left b' ne runs = ground (arith, runs)

  -- The steps of `hml_short` before the key.
  abbrev Front : Type 0
  Front =
      (label : BuilderData) × (blocks : BuilderData) × (ones : BuilderData) × (ended : BuilderData)
      × (with_raw (0b00000000 ∷ []) 1 ≡ ok label)
      × (append_ones (n / 32) label ≡ ok blocks)
      × (tail_ones blocks ≡ ok ones)
      × (append_bit_zero ones ≡ ok ended)
      × Written (false ∷ (replicate n true ++ (false ∷ []))) ended

  front_of_short : n ≤ 1021 → Front
  front_of_short few =
      let (b, e, w) = short_start in
      let (blocks, e', w') = append_ones-Writes (n / 32) (false ∷ []) b w (omega arith) in
      let (ones, e'', w'') =
        tail-Writes (false ∷ replicate (32 * (n / 32)) true) blocks w'
          (omega (arith, length-replicate (32 * (n / 32)) true)) in
      let (b', e''', w''') =
        zero-Writes (false ∷ replicate n true) ones
          (subst (λ t. Written (false ∷ t) ones)
            (replicate_add (32 * (n / 32)) (n % 32) true
              ∙ ap (λ k. replicate k true) {x = 32 * (n / 32) + n % 32} {y = n} (omega arith))
            w'')
          (omega (arith, length-replicate n true)) in
      (b, blocks, ones, b', e, e', e'', e''', w''')

  front_length : length (false ∷ (replicate n true ++ (false ∷ []))) ≡ n + 2
  front_length =
      omega (arith, length-append (replicate n true) (false ∷ []), length-replicate n true)

  short_spelled : (false ∷ (replicate n true ++ (false ∷ []))) ++ bits key ≡ short_code (bits key)
  short_spelled =
      ap (false ∷◌) (append_assoc (replicate n true) (false ∷ []) (bits key))
      ∙ ap (λ m. false ∷ (replicate m true ++ (false ∷ bits key))) (sym (length-bits key window))

  pub hml_short-Writes :
      2 + 2 * n ≤ 1023
      → (b : BuilderData) × (hml_short key ≡ ok (some b)) × Written (short_code (bits key)) b
  unfolding hml_short
  hml_short-Writes room =
      let (label, blocks, ones, ended, e1, e2, e3, e4, w) = front_of_short (omega arith) in
      let (b, runs, w') =
        key-Writes (false ∷ (replicate n true ++ (false ∷ []))) ended w
          (omega (arith, front_length)) in
      (b, rw (remaining-n, e1, e2, e3, e4, runs) refl, subst (λ t. Written t b) short_spelled w')

  -- Where the label would not fit there is none.
  pub hml_short-none : n ≤ 1021 → 1023 < 2 + 2 * n → hml_short key ≡ ok none
  unfolding hml_short
  hml_short-none few full =
      let (label, blocks, ones, ended, e1, e2, e3, e4, w) = front_of_short few in
      rw
        (
          remaining-n,
          e1,
          e2,
          e3,
          e4,
          append_bytestring-overflow key window ended
              (omega (arith, w.length_in_bits, front_length)),
        )
        refl
