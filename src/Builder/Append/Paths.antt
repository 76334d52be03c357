-- ===== src/Builder/Append/Paths.antt =====
-- The three paths of `append_raw`: each cuts bytes that join the two bit strings.
use ton_labs_types.Base.{
  ℕ, ◌+◌, ◌-◌, ◌*◌, ◌/◌, ◌%◌, ◌^◌, ◌≤◌, ◌≡◌, ◌≢◌, subst, sym, ap, ◌∙◌, Bool, false, List, [], ◌∷◌,
  ◌++◌, append_assoc, arith, length, take, replicate, split_at, length-append, length-take,
  take-append_ge, take-append_le, some, pop,
}
use ton_labs_types.Types.{ok}
use ton_labs_types.Bits.{to_bits, bytes_bits, AllBytes}
use ton_labs_types.Bits.Laws.{bytes_bits-append, length-bytes_bits}
use ton_labs_types.Bits.Cut.{
  take-bytes_bits, take-bytes_bits_whole, AllBytes-append, AllBytes-front, AllBytes-take,
}
use ton_labs_types.Builder.{
  BuilderData, append_shifting, without_shifting, with_slice_shifting, with_double_shifting,
  cut_bytes, shifted_bytes, clear_low,
}
use ton_labs_types.Builder.Spec.{bits, IsValid}
use ton_labs_types.Builder.Cut.{trimmed-cut_bytes, pop-take, cut_whole, cut_within}
use ton_labs_types.Builder.Shift.{shifted_bytes-bits, length-shifted_bytes, shifted_bytes-AllBytes}
use native.Mathlib.Decide.{ℕ_discrete}

-- The bytes of a builder after an append that does something: those of `joined`, cut.
abbrev pub grown : BuilderData → List ℕ → ℕ → BuilderData
grown b joined n = record b {
  bytes = cut_bytes joined (b.length_in_bits + n);
  length_in_bits = b.length_in_bits + n;
}

-- The bytes before the cut, at a byte boundary.
abbrev aligned : BuilderData → List ℕ → List ℕ
aligned b slice = take (b.length_in_bits / 8) b.bytes ++ slice

-- What is known of the bytes before the cut.
pub record Joins (b : BuilderData) (slice : List ℕ) (n : ℕ) (joined : List ℕ) : Type 0 where
  pub long : b.length_in_bits + n ≤ 8 * length joined
  pub bytes : AllBytes joined
  pub spells : take (b.length_in_bits + n) (bytes_bits joined) ≡ bits b ++ take n (bytes_bits slice)

module _ (b : BuilderData) (slice : List ℕ) (n : ℕ) (v : IsValid b) (a : AllBytes slice)
    (fits : n ≤ 8 * length slice) where
  length-bits : length (bits b) ≡ b.length_in_bits
  length-bits =
      length-take b.length_in_bits (bytes_bits b.bytes)
      ∙ omega (arith, length-bytes_bits b.bytes, v.covered)

  -- The end of the bits of `bits b ++ rest`.
  take_joined :
      (rest : List Bool) → take (b.length_in_bits + n) (bits b ++ rest) ≡ bits b ++ take n rest
  take_joined rest =
      take-append_ge (b.length_in_bits + n) (bits b) rest (omega (arith, length-bits))
      ∙ ap (λ m. bits b ++ take m rest) (omega (arith, length-bits))

  aligned-Joins : b.length_in_bits % 8 ≡ 0 → Joins b slice n (aligned b slice)
  aligned-Joins e = record {
    long = omega (
      arith,
      length-append (take (b.length_in_bits / 8) b.bytes) slice,
      length-take (b.length_in_bits / 8) b.bytes,
      v.covered,
    );
    bytes = AllBytes-append _ slice (AllBytes-take (b.length_in_bits / 8) b.bytes v.all_bytes) a;
    spells =
        ap (take (b.length_in_bits + n))
          (bytes_bits-append (take (b.length_in_bits / 8) b.bytes) slice)
        ∙ ap (λ t. take (b.length_in_bits + n) (t ++ bytes_bits slice)) whole
        ∙ take_joined (bytes_bits slice);
  }
    where
      whole : bytes_bits (take (b.length_in_bits / 8) b.bytes) ≡ bits b
      whole =
          sym (take-bytes_bits_whole (b.length_in_bits / 8) b.bytes (omega (arith, v.covered)))
          ∙ ap (λ m. take m (bytes_bits b.bytes)) (omega arith)

  module _ (front : List ℕ) (x : ℕ) (back : List ℕ) (e : b.bytes ≡ front ++ (x ∷ back))
      (l : length front ≡ b.length_in_bits / 8) where
    abbrev shift : ℕ
    shift = b.length_in_bits % 8

    abbrev shifted : List ℕ
    shifted = front ++ shifted_bytes shift (x / 2 ^ (8 - shift)) slice

    first_bits : bits b ≡ bytes_bits front ++ to_bits shift (x / 2 ^ (8 - shift))
    first_bits =
        ap (λ t. take b.length_in_bits (bytes_bits t)) e
        ∙ ap (λ m. take m (bytes_bits (front ++ (x ∷ back)))) {y = 8 * length front + shift}
            (omega arith)
        ∙ take-bytes_bits front x back shift (8 - shift) (omega arith)

    shifted-spells :
        bytes_bits shifted ≡ bits b ++ (bytes_bits slice ++ replicate (8 - shift) false)
    shifted-spells =
        bytes_bits-append front (shifted_bytes shift (x / 2 ^ (8 - shift)) slice)
        ∙ ap (λ t. bytes_bits front ++ t)
            (shifted_bytes-bits shift (omega arith) (x / 2 ^ (8 - shift)) slice a)
        ∙ sym (append_assoc (bytes_bits front) (to_bits shift (x / 2 ^ (8 - shift))) _)
        ∙ ap (λ t. t ++ (bytes_bits slice ++ replicate (8 - shift) false)) (sym first_bits)

    shifted-Joins : Joins b slice n shifted
    shifted-Joins = record {
      long = omega (
        arith,
        length-append front (shifted_bytes shift (x / 2 ^ (8 - shift)) slice),
        length-shifted_bytes shift (omega arith) (x / 2 ^ (8 - shift)) slice,
      );
      bytes =
          AllBytes-append front _ (AllBytes-front front (x ∷ back) (subst AllBytes e v.all_bytes))
            (shifted_bytes-AllBytes shift (omega arith) (x / 2 ^ (8 - shift)) slice);
      spells =
          ap (take (b.length_in_bits + n)) shifted-spells
          ∙ take_joined (bytes_bits slice ++ replicate (8 - shift) false)
          ∙ ap (λ t. bits b ++ t)
              (take-append_le n (bytes_bits slice) _ (omega (arith, length-bytes_bits slice)));
    }

    double-grown : with_double_shifting b slice n ≡ ok (grown b shifted n)
    unfolding with_double_shifting
    double-grown =
        rw popped (rw (trimmed-cut_bytes shifted (b.length_in_bits + n) shifted-Joins.long))
      where
        popped : pop (take (1 + b.length_in_bits / 8) b.bytes) ≡ some (front, x)
        popped =
            ap (λ t. pop (take (1 + b.length_in_bits / 8) t)) e
            ∙ pop-take front x back (1 + b.length_in_bits / 8) (omega arith)

  without-grown :
      b.length_in_bits % 8 ≡ 0
      → n % 8 ≡ 0
      → without_shifting b slice n ≡ grown b (aligned b slice) n
  unfolding without_shifting
  without-grown p q =
      ap (λ t. record b { bytes = t; length_in_bits = b.length_in_bits + n })
        (sym (cut_whole (aligned b slice) (b.length_in_bits + n) (omega arith)))

  slice-grown :
      b.length_in_bits % 8 ≡ 0
      → n % 8 ≢ 0
      → with_slice_shifting b slice n ≡ ok (grown b (aligned b slice) n)
  unfolding with_slice_shifting
  slice-grown p q =
      let total = b.length_in_bits + n in
      let (front, x, back, e, l) =
        split_at (total / 8) (aligned b slice) (omega (arith, (aligned-Joins p).long)) in
      rw e (
        rw
          (
            pop-take front x back (1 + total / 8) (omega arith),
            cut_within front x back total l (omega arith),
          )
          (ap
            (λ k.
              ok (record b { bytes = front ++ (clear_low (8 - k) x ∷ []); length_in_bits = total }))
            (omega arith)))

  aligned-grown :
      n ≢ 0
      → b.length_in_bits % 8 ≡ 0
      → append_shifting b slice n ≡ ok (grown b (aligned b slice) n)
  unfolding append_shifting
  aligned-grown ne p = elim (ℕ_discrete (n % 8) 0) [
    | yes q ↦ ground (arith, without-grown p q)
    | no q ↦ ground (arith, slice-grown p q)
  ]

  append_shifting_double :
      n ≢ 0 → b.length_in_bits % 8 ≢ 0 → append_shifting b slice n ≡ with_double_shifting b slice n
  unfolding append_shifting
  append_shifting_double ne q = ground arith

  -- On each of its paths `append_shifting` cuts bytes that join the two bit strings.
  pub append_shifting-grown :
      n ≢ 0
      → (joined : List ℕ) × (append_shifting b slice n ≡ ok (grown b joined n))
        × Joins b slice n joined
  append_shifting-grown ne = elim (ℕ_discrete (b.length_in_bits % 8) 0) [
    | yes p ↦ (aligned b slice, aligned-grown ne p, aligned-Joins p)
    | no q ↦
        let (front, x, back, e, l) =
          split_at (b.length_in_bits / 8) b.bytes (omega (arith, v.covered)) in
        (
          shifted front x back e l,
          append_shifting_double ne q ∙ double-grown front x back e l,
          shifted-Joins front x back e l,
        )
  ]
