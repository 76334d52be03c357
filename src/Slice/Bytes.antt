-- ===== src/Slice/Bytes.antt =====
-- `get_bytestring` and `append_bytestring`.
use ton_labs_types.Base.{
  ℕ, zero, suc, ◌+◌, ◌-◌, ◌*◌, ◌/◌, ◌%◌, ◌^◌, ◌≤◌, ◌<◌, ◌≡◌, ◌≢◌, refl, sym, ap, ap₂, ◌∙◌, Bool,
  false, List, [], ◌∷◌, ◌++◌, arith, length, take, drop, take_all, append-nil, length-append,
  drop_all, take-append_ge, take-append_eq, drop-drop, take-append-drop, length-drop, replicate,
  subst,
}
use ton_labs_types.Types.{Result, ok, fail, cell_overflow}
use ton_labs_types.Bits.{bytes_bits, to_bits, AllBytes}
use ton_labs_types.Bits.Laws.{length-to_bits, to_bits-mod, to_bits-shift_left}
use ton_labs_types.Builder.{BuilderData}
use ton_labs_types.Builder.Spec as Builder
use ton_labs_types.Builder.Append.{Appended, append_raw-Appended, too_long}
use ton_labs_types.Slice.{SliceData, remaining_bits}
use ton_labs_types.Slice.Spec.{bits, IsWindow}
use ton_labs_types.Slice.Bits.{get_bits-Reads}
use ton_labs_types.Slice.Window.{length-bits, remaining}
use ton_labs_types.Slice.Reading.{get_bytestring, bytestring_loop, get_byte}
use ton_labs_types.Slice.Transfer.{append_bytestring}
use native.Mathlib.Decide.{ℕ_discrete, dec_le}

-- Bytes that start with these bits, with no byte more than they need.
pub record Starts (l : List Bool) (xs : List ℕ) : Type 0 where
  pub spells : take (length l) (bytes_bits xs) ≡ l
  pub count : length xs ≡ (length l + 7) / 8
  pub all_bytes : AllBytes xs

nothing-Starts : Starts [] []
unfolding bytes_bits
nothing-Starts = record { spells = refl; count = omega arith; all_bytes = tt }

byte-Starts :
    (l l' : List Bool) (x : ℕ) (xs : List ℕ)
    → x < 256
    → to_bits 8 x ≡ l
    → Starts l' xs
    → Starts (l ++ l') (x ∷ xs)
unfolding bytes_bits
byte-Starts l l' x xs small e t = record {
  spells =
      ap (λ k. take k (to_bits 8 x ++ bytes_bits xs)) {x = length (l ++ l')} {y = 8 + length l'}
        (omega (arith, long))
      ∙ take-append_ge (8 + length l') (to_bits 8 x) (bytes_bits xs)
          (omega (arith, length-to_bits 8 x))
      ∙ ap₂ (λ a k. a ++ take k (bytes_bits xs)) {u = 8 + length l' - length (to_bits 8 x)}
          {v = length l'} e (omega (arith, length-to_bits 8 x))
      ∙ ap (l ++◌) t.spells;
  count = omega (arith, long, t.count);
  all_bytes = (small, t.all_bytes);
}
  where
    long : length (l ++ l') ≡ 8 + length l'
    long = omega (arith, length-append l l', ap length e, length-to_bits 8 x)

part-Starts :
    (n v : ℕ) (l : List Bool)
    → n ≢ 0
    → n < 8
    → v < 2 ^ n
    → to_bits n v ≡ l
    → Starts l ((v * 2 ^ (8 - n) % 256) ∷ [])
unfolding bytes_bits
part-Starts n v l some_bits few small e = record {
  spells =
      ap₂ (λ k t. take k (t ++ [])) {x = length l} {y = n} (omega (arith, long))
        (to_bits-mod 8 8 (v * 2 ^ (8 - n)) (omega arith)
          ∙ ap (λ m. to_bits m (v * 2 ^ (8 - n))) {x = 8} {y = n + (8 - n)} (omega arith)
          ∙ to_bits-shift_left n (8 - n) v)
      ∙ ap (take n) (append-nil (to_bits n v ++ replicate (8 - n) false))
      ∙ take-append_eq n (to_bits n v) (replicate (8 - n) false) (length-to_bits n v)
      ∙ e;
  count = omega (arith, long);
  all_bytes = (omega arith, tt);
}
  where
    long : length l ≡ n
    long = omega (arith, ap length e, length-to_bits n v)

module _ (s : SliceData) (w : IsWindow s) where
  abbrev left : ℕ → ℕ
  left offset = s.data_end - s.data_start - offset

  -- What the loop collects.
  abbrev Collects : ℕ → Result (List ℕ) → Type 0
  Collects offset r = (xs : List ℕ) × (r ≡ ok xs) × Starts (drop offset (bits s)) xs

  stops : (fuel offset : ℕ) → left offset ≡ 0 → bytestring_loop fuel s offset ≡ ok []
  unfolding bytestring_loop
  stops zero offset e = refl
  stops (suc fuel) offset e = ground arith

  at_end : (fuel offset : ℕ) → left offset ≡ 0 → Collects offset (bytestring_loop fuel s offset)
  at_end fuel offset e = ([], stops fuel offset e, rw nothing (nothing-Starts))
    where
      nothing : drop offset (bits s) ≡ []
      nothing = drop_all offset (bits s) (omega (arith, length-bits s w))

  at_part :
      (fuel offset : ℕ)
      → left offset ≢ 0
      → left offset < 8
      → Collects offset (bytestring_loop (suc fuel) s offset)
  at_part fuel offset ne few =
      let (v, read, (small, digits)) =
        get_bits-Reads s offset (left offset) w (omega arith) (omega arith) (omega arith) in
      (
        (v * 2 ^ (8 - left offset) % 256) ∷ [],
        unfold bytestring_loop in ground (arith, read),
        part-Starts (left offset) v (drop offset (bits s)) ne few small (
            digits
            ∙ take_all (left offset) (drop offset (bits s))
                (omega (arith, length-drop offset (bits s), length-bits s w))),
      )

  -- Enough rounds: one for each byte and one more.
  loop-Collects :
      (fuel offset : ℕ) → left offset < 8 * fuel → Collects offset (bytestring_loop fuel s offset)
  loop-Collects zero offset h = absurd (omega arith)
  loop-Collects (suc fuel) offset h = elim (ℕ_discrete (left offset) 0) [
    | yes e ↦ at_end (suc fuel) offset e
    | no ne ↦ elim (dec_le 8 (left offset)) [
      | yes many ↦ whole many (loop-Collects fuel (offset + 8) (omega arith))
      | no few ↦ at_part fuel offset ne (omega arith)
    ]
  ]
    where
      whole :
          8 ≤ left offset
          → Collects (offset + 8) (bytestring_loop fuel s (offset + 8))
          → Collects offset (bytestring_loop (suc fuel) s offset)
      whole many (xs, runs, t) =
          let (v, read, (small, digits)) =
            get_bits-Reads s offset 8 w (omega arith) (omega arith) (omega arith) in
          (
            v ∷ xs,
            unfold bytestring_loop in unfold get_byte in ground (arith, read, runs),
            subst (λ l. Starts l (v ∷ xs))
                (ap (take 8 (drop offset (bits s)) ++◌) (sym (drop-drop 8 offset (bits s)))
                  ∙ take-append-drop 8 (drop offset (bits s)))
                (byte-Starts (take 8 (drop offset (bits s))) (drop (offset + 8) (bits s)) v xs small
                  digits t),
          )

  -- `get_bytestring` from an offset gives the bits of the window behind it, in as few bytes as hold
  -- them.
  pub get_bytestring-Starts :
      (offset : ℕ)
      → (xs : List ℕ) × (get_bytestring s offset ≡ ok xs) × Starts (drop offset (bits s)) xs
  unfolding get_bytestring remaining_bits
  get_bytestring-Starts offset = loop-Collects (remaining_bits s / 8 + 1) offset (ground arith)

  -- `append_bytestring` appends the bits of the window where there is room for them.
  pub append_bytestring-Appended :
      (b : BuilderData)
      → Builder.IsValid b
      → b.length_in_bits + (s.data_end - s.data_start) ≤ 1023
      → (b' : BuilderData) × (append_bytestring b s ≡ ok b') × Appended b (bits s) b'
  unfolding append_bytestring
  append_bytestring-Appended b v room =
      let (xs, read, t) = get_bytestring-Starts 0 in
      let (b', runs, grown) =
        append_raw-Appended b xs (s.data_end - s.data_start) v t.all_bytes
          (omega (arith, t.count, length-bits s w)) room in
      (
        b',
        rw (read, remaining s w, length-bits s w) runs,
        subst (λ l. Appended b l b')
            (ap (λ k. take k (bytes_bits xs)) (sym (length-bits s w)) ∙ t.spells) grown,
      )

  -- Where there is no room it is an overflow.
  pub append_bytestring-overflow :
      (b : BuilderData)
      → 1023 < b.length_in_bits + (s.data_end - s.data_start)
      → append_bytestring b s ≡ fail cell_overflow
  unfolding append_bytestring
  append_bytestring-overflow b full =
      let (xs, read, t) = get_bytestring-Starts 0 in
      rw (read, remaining s w, length-bits s w)
        (too_long b xs (s.data_end - s.data_start) (omega (arith, t.count, length-bits s w)) full)
