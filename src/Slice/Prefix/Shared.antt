-- ===== src/Slice/Prefix/Shared.antt =====
-- The loop of `common_prefix` over whole bytes, and the count in the bits behind them.
use ton_labs_types.Base.{
  ℕ, zero, suc, ◌+◌, ◌-◌, ◌*◌, ◌/◌, ◌^◌, ◌≤◌, ◌<◌, ◌≡◌, ◌≢◌, refl, sym, ap, ap₂, ◌∙◌, min, Bool,
  true, false, List, ◌++◌, ◌==◌, ==_iff, Bool-cases, inl, inr, ◌⊎◌, arith, length, take, drop,
  drop-drop, take-append-drop, length-take, length-drop, leb, subst,
}
use ton_labs_types.Types.{ok}
use ton_labs_types.Bits.{to_bits}
use ton_labs_types.Bits.Common.{
  common, common-append_same, common-append_differ, common-append_last, common_le, common_whole,
}
use ton_labs_types.Slice.{SliceData}
use ton_labs_types.Slice.Reading.{get_byte}
use ton_labs_types.Slice.Spec.{bits, IsWindow}
use ton_labs_types.Slice.Window.{length-bits}
use ton_labs_types.Slice.Bits.{get_bits-Reads}
use ton_labs_types.Slice.RoundTrip.{digits-injective}
use ton_labs_types.Slice.Prefix.{shared_bytes, shared_bits}
use ton_labs_types.Slice.Prefix.Digits.{equal_digits, common-to_bits}

-- A list in three parts.
chunked : (o n : ℕ) (l : List Bool) → drop o l ≡ take n (drop o l) ++ drop (o + n) l
chunked o n l =
    sym (ap (λ t. take n (drop o l) ++ t) (sym (drop-drop n o l)) ∙ take-append-drop n (drop o l))

-- Equal numbers have equal digits, and others do not.
pub same_bits :
    (n x y : ℕ) {u v : List Bool} → (x == y) ≡ true → to_bits n x ≡ u → to_bits n y ≡ v → u ≡ v
same_bits n x y same p q = sym p ∙ ap (to_bits n) ((==_iff x y).0 same) ∙ q

other_bits :
    (n x y : ℕ) {u v : List Bool}
    → (x == y) ≡ false
    → x < 2 ^ n
    → y < 2 ^ n
    → to_bits n x ≡ u
    → to_bits n y ≡ v
    → u ≢ v
other_bits n x y other h h' p q e = differ (digits-injective n x y h h' (p ∙ e ∙ sym q))
  where
    differ : x ≢ y
    differ d = ground arith

module _ (a b : SliceData) (wa : IsWindow a) (wb : IsWindow b) where
  abbrev pub longest : ℕ
  longest = min (length (bits a)) (length (bits b))

  -- What is known at an offset: all bits before it are equal.
  abbrev pub Upto : ℕ → Type 0
  Upto o = common (bits a) (bits b) ≡ o + common (drop o (bits a)) (drop o (bits b))

  module _ (o n : ℕ) (inside : o + n ≤ longest) where
    abbrev pub chunk : SliceData → List Bool
    chunk s = take n (drop o (bits s))

    length-chunk : (length (chunk a) ≡ n) × (length (chunk b) ≡ n)
    length-chunk = omega (
      arith,
      length-take n (drop o (bits a)),
      length-take n (drop o (bits b)),
      length-drop o (bits a),
      length-drop o (bits b),
    )

    in_chunks :
        common (drop o (bits a)) (drop o (bits b))
        ≡ common (chunk a ++ drop (o + n) (bits a)) (chunk b ++ drop (o + n) (bits b))
    in_chunks = ap₂ common (chunked o n (bits a)) (chunked o n (bits b))

    pub equal_up : Upto o → chunk a ≡ chunk b → Upto (o + n)
    equal_up h e =
        h
        ∙ ap (λ m. o + m)
            (in_chunks
              ∙ ap (λ c. common (c ++ drop (o + n) (bits a)) (chunk b ++ drop (o + n) (bits b))) e
              ∙ common-append_same (chunk b) (drop (o + n) (bits a)) (drop (o + n) (bits b)))
        ∙ omega (arith, length-chunk)

    -- The count within the chunk is the whole count, if the chunk differs or is the last one.
    last_up :
        Upto o
        → (chunk a ≢ chunk b) ⊎ (o + n ≡ longest)
        → common (bits a) (bits b) ≡ o + common (chunk a) (chunk b)
    last_up h (inl differ) =
        h
        ∙ ap (λ m. o + m)
            (in_chunks
              ∙ common-append_differ (chunk a) (chunk b) (drop (o + n) (bits a))
                  (drop (o + n) (bits b)) (omega (arith, length-chunk)) short)
      where
        short : common (chunk a) (chunk b) < length (chunk a)
        short = omega (
          arith,
          length-chunk,
          common_le (chunk a) (chunk b),
          λ (e : common (chunk a) (chunk b) ≡ length (chunk a)).
              differ (common_whole (chunk a) (chunk b) (omega (arith, length-chunk)) e),
        )
    last_up h (inr e) =
        h
        ∙ ap (λ m. o + m)
            (in_chunks
              ∙ common-append_last (chunk a) (chunk b) (drop (o + n) (bits a))
                  (drop (o + n) (bits b)) (omega (arith, length-chunk)) nothing)
      where
        nothing : common (drop (o + n) (bits a)) (drop (o + n) (bits b)) ≡ 0
        nothing = omega (
          arith,
          common_le (drop (o + n) (bits a)) (drop (o + n) (bits b)),
          length-drop (o + n) (bits a),
          length-drop (o + n) (bits b),
        )

  -- Where the loop stops: at the end, or before a byte that differs or is cut off.
  pub record Stops (o : ℕ) : Type 0 where
    pub within : o ≤ longest
    pub upto : Upto o
    pub stopped : (longest < o + 8) ⊎ (take 8 (drop o (bits a)) ≢ take 8 (drop o (bits b)))

  shared_bytes-Stops :
      (fuel o : ℕ)
      → o ≤ longest
      → longest < o + 8 * fuel
      → Upto o
      → (o' : ℕ) × (shared_bytes fuel a b longest o ≡ ok o') × Stops o'
  unfolding shared_bytes get_byte
  shared_bytes-Stops zero o h f u = absurd (omega arith)
  shared_bytes-Stops (suc fuel) o h f u = elim (Bool-cases (leb (o + 8) longest)) [
    | inr e ↦ (o, rw e refl, record { within = h; upto = u; stopped = inl (ground arith) })
    | inl e ↦
        let inside : o + 8 ≤ longest = ground arith in
        let (x, reads, (below, spells)) =
          get_bits-Reads a o 8 wa (omega (arith, length-bits a wa)) (omega arith) (omega arith) in
        let (y, reads', (below', spells')) =
          get_bits-Reads b o 8 wb (omega (arith, length-bits b wb)) (omega arith) (omega arith) in
        elim (Bool-cases (x == y)) [
          | inl same ↦
              let (o', runs, stops) =
                shared_bytes-Stops fuel (o + 8) inside (omega arith)
                  (equal_up o 8 inside u (same_bits 8 x y same spells spells')) in
              (o', rw (e, reads, reads', same) runs, stops)
          | inr other ↦ (
            o,
            rw (e, reads, reads', other) refl,
            record {
              within = h;
              upto = u;
              stopped = inr (other_bits 8 x y other below below' spells spells');
            },
          )
        ]
  ]

  -- The loop and the bits behind it find the length of the longest common prefix.
  pub shared_bytes-common :
      (o : ℕ) × (shared_bytes (longest / 8 + 1) a b longest 0 ≡ ok o) × Stops o
  shared_bytes-common =
      shared_bytes-Stops (longest / 8 + 1) 0 (omega arith) (omega arith) (omega arith)

  pub shared_bits-common :
      (o : ℕ)
      → Stops o
      → o < longest
      → (m : ℕ) × (shared_bits a b longest o ≡ ok m) × (common (bits a) (bits b) ≡ o + m)
  unfolding shared_bits
  shared_bits-common o stops h =
      let n = min (longest - o) 8 in
      let inside : o + n ≤ longest = omega arith in
      let (x, reads, (below, spells)) =
        get_bits-Reads a o n wa (omega (arith, length-bits a wa)) (omega arith) (omega arith) in
      let (y, reads', (below', spells')) =
        get_bits-Reads b o n wb (omega (arith, length-bits b wb)) (omega arith) (omega arith) in
      (
        equal_digits n x y,
        rw (reads, reads') refl,
        last_up o n inside stops.upto (last n refl stops.stopped)
            ∙ ap (λ m. o + m)
                (ap₂ common (sym spells) (sym spells')
                  ∙ common-to_bits n x y (omega arith) below below'),
      )
    where
      last :
          (n : ℕ)
          → n ≡ min (longest - o) 8
          → (longest < o + 8) ⊎ (take 8 (drop o (bits a)) ≢ take 8 (drop o (bits b)))
          → (take n (drop o (bits a)) ≢ take n (drop o (bits b))) ⊎ (o + n ≡ longest)
      last n e (inl short) = inr (omega arith)
      last n e (inr differ) = elim (Bool-cases (leb (o + 8) longest)) [
        | inl long ↦ inl (
            subst (λ k. take k (drop o (bits a)) ≢ take k (drop o (bits b))) {x = 8} (ground arith)
              differ)
        | inr short ↦ inr (ground arith)
      ]
