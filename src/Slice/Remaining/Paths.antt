-- ===== src/Slice/Remaining/Paths.antt =====
-- The three paths of `remaining_data`: whole bytes, within one byte, across bytes.
use ton_labs_types.Base.{
  ℕ, suc, ◌+◌, ◌-◌, ◌*◌, ◌/◌, ◌%◌, ◌^◌, ◌≤◌, ◌<◌, ◌≡◌, ◌≢◌, sym, ap, ap₂, subst, ◌∙◌, Bool, false,
  List, [], ◌∷◌, ◌++◌, arith, length, take, drop, replicate, split_at, get_elem?, get_elem?-front,
  length-append, length-take, take-take, take_add, drop-drop, take-append_le, drop-append_eq,
  drop-append_ge, append-nil,
}
use ton_labs_types.Types.{ok, unwrap}
use ton_labs_types.Bits.{to_bits, bytes_bits, AllBytes}
use ton_labs_types.Bits.Laws.{
  to_bits-mod, to_bits-shift_left, take-to_bits, length-to_bits, length-bytes_bits,
}
use ton_labs_types.Bits.Cut.{take-bytes_bits_whole, AllBytes-take, AllBytes-back}
use ton_labs_types.Cell.Tree as Tree
use ton_labs_types.Cell.Layout.{sub_slice}
use ton_labs_types.Builder.{BuilderData, new, with_raw, append_raw}
use ton_labs_types.Builder.Spec as Builder
use ton_labs_types.Builder.Append.{append_raw-Appended}
use ton_labs_types.Builder.Operations.Whole.{with_raw-IsRaw}
use ton_labs_types.Slice.{SliceData, data_at, remaining_bits}
use ton_labs_types.Slice.Transfer.{remaining_data}
use ton_labs_types.Slice.Spec.{bits, IsWindow}
use ton_labs_types.Slice.Bits.{drop_front, in_front}
use ton_labs_types.Slice.Window.{length-bits}
use native.Mathlib.Decide.{ℕ_discrete, dec_le}

-- A valid builder that spells the bits of the slice and has no references.
pub record Holds (s : SliceData) (b : BuilderData) : Type 0 where
  pub spells : Builder.bits b ≡ bits s
  pub length_in_bits : b.length_in_bits ≡ length (bits s)
  pub valid : Builder.IsValid b
  pub references : b.references ≡ []

pub new-IsValid : Builder.IsValid new
new-IsValid = record {
  covered = omega arith;
  in_capacity = omega arith;
  stored = omega arith;
  all_bytes = tt;
  few_references = omega arith;
}

-- A byte without its first `r` bits, at the start of a byte.
shifted_byte :
    (r n x : ℕ)
    → r + n ≤ 8
    → take n (bytes_bits (x * 2 ^ r % 256 ∷ [])) ≡ to_bits n (x / 2 ^ (8 - r - n))
unfolding bytes_bits
shifted_byte r n x h =
    ap (take n) (
      append-nil (to_bits 8 (x * 2 ^ r % 256))
      ∙ to_bits-mod 8 8 (x * 2 ^ r) (omega arith)
      ∙ ap (λ k. to_bits k (x * 2 ^ r)) {y = 8 - r + r} (omega arith)
      ∙ to_bits-shift_left (8 - r) r x)
    ∙ take-append_le n (to_bits (8 - r) x) (replicate r false)
        (omega (arith, length-to_bits (8 - r) x))
    ∙ ap (λ k. take n (to_bits k x)) {y = n + (8 - r - n)} (omega arith)
    ∙ take-to_bits n (8 - r - n) x

module _ (s : SliceData) (w : IsWindow s) (nonempty : s.data_start < s.data_end)
    (fits : s.data_end ≤ s.data_start + 1023) where
  abbrev q : ℕ
  q = s.data_start / 8

  abbrev r : ℕ
  r = s.data_start % 8

  abbrev n : ℕ
  n = s.data_end - s.data_start

  remaining_n : remaining_bits s ≡ n
  unfolding remaining_bits
  remaining_n = ground arith

  module _ (front : List ℕ) (x : ℕ) (back : List ℕ)
      (e : Tree.data_bytes s.cell ≡ front ++ (x ∷ back)) (l : length front ≡ q) where
    bits_here : bits s ≡ take n (drop r (bytes_bits (x ∷ back)))
    bits_here =
        ap (λ d. take n (drop s.data_start (bytes_bits d))) e
        ∙ ap (λ m. take n (drop m (bytes_bits (front ++ (x ∷ back))))) {y = 8 * length front + r}
            (omega (arith, l))
        ∙ ap (take n) (drop_front front (x ∷ back) r)

    bits_behind : bits s ≡ take n (drop r (to_bits 8 x ++ bytes_bits back))
    bits_behind = unfold bytes_bits in bits_here

    bytes_here : AllBytes (x ∷ back)
    bytes_here = AllBytes-back front (x ∷ back) (subst AllBytes e w.all_bytes)

    long : length front + suc (length back) ≡ length (Tree.data_bytes s.cell)
    long = omega (arith, ap length e, length-append front (x ∷ back))

    byte_here : data_at s q ≡ ok x
    unfolding data_at
    byte_here =
        ap (λ d. unwrap (get_elem? d q)) e
        ∙ ap (λ k. unwrap (get_elem? (front ++ (x ∷ back)) k)) (sym l)
        ∙ ap unwrap (get_elem?-front front x back)

    slice_here : (m : ℕ) → sub_slice (Tree.data_bytes s.cell) q m ≡ take m (x ∷ back)
    slice_here m = ap (λ d. take m (drop q d)) e ∙ ap (take m) (drop-append_eq q front (x ∷ back) l)

    slice_behind : (m : ℕ) → sub_slice (Tree.data_bytes s.cell) (q + 1) m ≡ take m back
    slice_behind m =
        ap (λ d. take m (drop (q + 1) d)) e
        ∙ ap (take m) (
            drop-append_ge (q + 1) front (x ∷ back) (omega (arith, l))
            ∙ ap (λ k. drop k (x ∷ back)) {y = 1} (omega (arith, l)))

    held :
        (b : BuilderData)
        → b.length_in_bits ≡ n
        → Builder.bits b ≡ bits s
        → Builder.IsValid b
        → b.references ≡ []
        → Holds s b
    held b long_b spelled valid none_there = record {
      spells = spelled;
      length_in_bits = long_b ∙ sym (length-bits s w);
      valid = valid;
      references = none_there;
    }

    -- Whole bytes of the data, cut short.
    abbrev bytes_taken : ℕ
    bytes_taken = (s.data_end + 7) / 8 - q

    whole : r ≡ 0 → (b : BuilderData) × (remaining_data s ≡ ok b) × Holds s b
    whole z =
        let (b, runs, raw) =
          with_raw-IsRaw (take bytes_taken (x ∷ back)) n
            (AllBytes-take bytes_taken (x ∷ back) bytes_here)
            (omega (arith, length-take bytes_taken (x ∷ back), long, l, w.inside)) (omega arith) in
        (
          b,
          returns b runs,
          held b raw.length_in_bits (raw.spells ∙ spelled) raw.valid raw.references,
        )
      where
        returns :
            (b : BuilderData)
            → with_raw (take bytes_taken (x ∷ back)) n ≡ ok b
            → remaining_data s ≡ ok b
        returns b runs =
            unfold remaining_data in ground (arith, z, slice_here bytes_taken, remaining_n, runs)

        spelled : take n (bytes_bits (take bytes_taken (x ∷ back))) ≡ bits s
        spelled =
            ap (take n) (
              sym (take-bytes_bits_whole bytes_taken (x ∷ back) (omega (arith, long, l, w.inside))))
            ∙ take-take n (8 * bytes_taken) (bytes_bits (x ∷ back)) (omega arith)
            ∙ ap (λ k. take n (drop k (bytes_bits (x ∷ back)))) (sym z)
            ∙ sym bits_here

    within : r ≢ 0 → r + n ≤ 8 → (b : BuilderData) × (remaining_data s ≡ ok b) × Holds s b
    within nz h =
        let (b, runs, raw) =
          with_raw-IsRaw (x * 2 ^ r % 256 ∷ []) n (omega arith, tt) (omega arith) (omega arith) in
        (
          b,
          returns b runs,
          held b raw.length_in_bits (raw.spells ∙ spelled) raw.valid raw.references,
        )
      where
        returns :
            (b : BuilderData) → with_raw (x * 2 ^ r % 256 ∷ []) n ≡ ok b → remaining_data s ≡ ok b
        returns b runs = unfold remaining_data in ground (arith, nz, byte_here, remaining_n, runs)

        spelled : take n (bytes_bits (x * 2 ^ r % 256 ∷ [])) ≡ bits s
        spelled =
            shifted_byte r n x h
            ∙ sym (in_front 8 r n (8 - r - n) x (bytes_bits back) (omega arith))
            ∙ sym bits_behind

    -- The bytes behind the first one.
    abbrev bytes_behind : ℕ
    bytes_behind = (s.data_end + 7) / 8 - (q + 1)

    across : r ≢ 0 → 8 < r + n → (b : BuilderData) × (remaining_data s ≡ ok b) × Holds s b
    across nz h =
        let (b, runs, raw) =
          with_raw-IsRaw (x * 2 ^ r % 256 ∷ []) (8 - r) (omega arith, tt) (omega arith)
            (omega arith) in
        let (b', runs', app) =
          append_raw-Appended b (take bytes_behind back) (r + n - 8) raw.valid
            (AllBytes-take bytes_behind back bytes_here.1)
            (omega (arith, length-take bytes_behind back, long, l, w.inside))
            (omega (arith, raw.length_in_bits)) in
        (
          b',
          returns b b' runs runs',
          held b' (app.length_in_bits ∙ omega (arith, raw.length_in_bits, added))
              (app.spells
                ∙ ap (λ t. t ++ take (r + n - 8) (bytes_bits (take bytes_behind back))) raw.spells
                ∙ spelled)
              app.valid (app.references ∙ raw.references),
        )
      where
        returns :
            (b b' : BuilderData)
            → with_raw (x * 2 ^ r % 256 ∷ []) (8 - r) ≡ ok b
            → append_raw b (take bytes_behind back) (r + n - 8) ≡ ok b'
            → remaining_data s ≡ ok b'
        returns b b' runs runs' =
            unfold remaining_data in
            ground (arith, nz, byte_here, slice_behind bytes_behind, remaining_n, runs, runs')

        spelled :
            take (8 - r) (bytes_bits (x * 2 ^ r % 256 ∷ []))
              ++ take (r + n - 8) (bytes_bits (take bytes_behind back))
            ≡ bits s
        spelled =
            ap₂ (λ a c. a ++ c) first second
            ∙ sym (take_add (8 - r) (r + n - 8) line)
            ∙ ap (λ k. take k line) {y = n} (omega arith)
            ∙ sym bits_behind
          where
            line : List Bool
            line = drop r (to_bits 8 x ++ bytes_bits back)

            first : take (8 - r) (bytes_bits (x * 2 ^ r % 256 ∷ [])) ≡ take (8 - r) line
            first =
                shifted_byte r (8 - r) x (omega arith)
                ∙ sym (in_front 8 r (8 - r) (8 - r - (8 - r)) x (bytes_bits back) (omega arith))

            second :
                take (r + n - 8) (bytes_bits (take bytes_behind back))
                ≡ take (r + n - 8) (drop (8 - r) line)
            second =
                ap (take (r + n - 8))
                  (sym (take-bytes_bits_whole bytes_behind back (omega (arith, long, l, w.inside))))
                ∙ take-take (r + n - 8) (8 * bytes_behind) (bytes_bits back) (omega arith)
                ∙ ap (take (r + n - 8)) (
                    sym (
                      drop-drop (8 - r) r (to_bits 8 x ++ bytes_bits back)
                      ∙ ap (λ k. drop k (to_bits 8 x ++ bytes_bits back)) {y = 8} (omega arith)
                      ∙ drop-append_eq 8 (to_bits 8 x) (bytes_bits back) (length-to_bits 8 x)))

        added : length (take (r + n - 8) (bytes_bits (take bytes_behind back))) ≡ r + n - 8
        added =
            length-take (r + n - 8) (bytes_bits (take bytes_behind back))
            ∙ omega (
              arith,
              length-bytes_bits (take bytes_behind back),
              length-take bytes_behind back,
              long,
              l,
              w.inside,
            )

  pub spelled_data : (b : BuilderData) × (remaining_data s ≡ ok b) × Holds s b
  spelled_data =
      let (front, x, back, e, l) = split_at q (Tree.data_bytes s.cell) (omega (arith, w.inside)) in
      elim (ℕ_discrete r 0) [
        | yes z ↦ whole front x back e l z
        | no nz ↦ elim (dec_le (r + n) 8) [
          | yes h ↦ within front x back e l nz h
          | no h ↦ across front x back e l nz (omega arith)
        ]
      ]
