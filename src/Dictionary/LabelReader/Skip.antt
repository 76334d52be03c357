-- ===== src/Dictionary/LabelReader/Skip.antt =====
-- `skip_label` passes over every label of the grammar.
use ton_labs_types.Base.{
  append_assoc, inl, inr, ℕ, ◌+◌, ◌-◌, ◌^◌, ◌≤◌, ◌<◌, ◌≡◌, ◌≢◌, refl, ap, ◌∙◌, Bool, true, false,
  List, ◌∷◌, ◌++◌, arith, length, replicate, length-append,
}
use ton_labs_types.Types.{Result, ok}
use ton_labs_types.Bits.{to_bits}
use ton_labs_types.Slice.{SliceData, is_empty}
use ton_labs_types.Slice.Spec.{bits, IsWindow}
use ton_labs_types.Slice.Window.{length-bits, moved}
use ton_labs_types.Dictionary.Label.Width.{width}
use ton_labs_types.Dictionary.LabelReader.{new_reader, read_up_to, LabelReader}
use ton_labs_types.Dictionary.LabelReader.Parts.{
  Passed, passed, next_bit, moved-moved, Passed-twice,
}
use ton_labs_types.Dictionary.LabelReader.Sizes.{get_next_size-Passed}
use ton_labs_types.Slice.{is_empty}
use ton_labs_types.Dictionary.Label.Spec.{IsLabel}
use ton_labs_types.Dictionary.LabelReader.{skip_label}
use ton_labs_types.Slice.{move_by}
use ton_labs_types.Slice.Window.{move_by-Moved}
use ton_labs_types.Dictionary.LabelReader.Reads.{unary-Passed, less-eq}
use ton_labs_types.Dictionary.LabelReader.Parts.{passed}

-- What `skip_label` gives: a reader past the label, and `max` without the key.
abbrev pub Skips : SliceData → ℕ → List Bool → List Bool → Result (LabelReader × ℕ) → Type 0
Skips s max key rest r =
    (k : ℕ) × (r ≡ ok (read_up_to (moved s k), max - length key)) × Passed s k rest

module _ (s : SliceData) (w : IsWindow s) (max : ℕ) (key rest : List Bool)
    (h : length key ≤ max) where
  abbrev n : ℕ
  n = length key

  is_empty-eq : (x : Bool) (l : List Bool) → bits s ≡ x ∷ l → is_empty s ≡ false
  unfolding is_empty
  is_empty-eq x l e = ground (arith, length-bits s w, ap length e)

  -- The key is passed over.
  over_key :
      (t : SliceData)
      → IsWindow t
      → bits t ≡ key ++ rest
      → (move_by t n ≡ ok (moved t n)) × Passed t n rest
  over_key t v e = (
    (move_by-Moved t v n
        (omega (arith, ap length e, length-append key rest, length-bits t v, v.ordered))).0,
    passed t v key rest e,
  )

  skip_short :
      bits s ≡ false ∷ (replicate n true ++ (false ∷ (key ++ rest)))
      → Skips s max key rest (skip_label (new_reader s) max)
  unfolding skip_label new_reader
  skip_short e =
      let (first, p) = next_bit s w false _ e in
      let (runs, q) = unary-Passed (moved s 1) p.valid n (key ++ rest) p.spells in
      let q' = Passed-twice s 1 (n + 1) (1 + (n + 1)) _ refl q in
      let (moves, behind) = over_key (moved s (1 + (n + 1))) q'.valid q'.spells in
      (
        1 + (n + 1) + n,
        rw (is_empty-eq false _ e, first, runs, moved-moved s 1 (n + 1), moves, less-eq max n h)
            (ap (λ t. ok (read_up_to t, max - n)) (moved-moved s (1 + (n + 1)) n)),
        Passed-twice s (1 + (n + 1)) n (1 + (n + 1) + n) rest refl behind,
      )

  module _ (positive : max ≢ 0) (small : max < 2 ^ 16) where
    skip_long :
        bits s ≡ true ∷ false ∷ (to_bits (width max) n ++ (key ++ rest))
        → Skips s max key rest (skip_label (new_reader s) max)
    unfolding skip_label new_reader
    skip_long e =
        let k = width max in
        let (first, p) = next_bit s w true _ e in
        let (second, q) = next_bit (moved s 1) p.valid false _ p.spells in
        let q' = Passed-twice s 1 1 2 _ (omega arith) q in
        let (runs, z) =
          get_next_size-Passed max positive small (moved s 2) q'.valid n _ h q'.spells in
        let z' = Passed-twice s 2 k (2 + k) _ refl z in
        let (moves, behind) = over_key (moved s (2 + k)) z'.valid z'.spells in
        (
          2 + k + n,
          rw
              (
                is_empty-eq true _ e,
                first,
                second,
                moved-moved s 1 1,
                runs,
                moved-moved s 2 k,
                moves,
                less-eq max n h,
              )
              (ap (λ t. ok (read_up_to t, max - n)) (moved-moved s (2 + k) n)),
          Passed-twice s (2 + k) n (2 + k + n) rest refl behind,
        )

    skip_same :
        (bit : Bool)
        → bits s ≡ true ∷ true ∷ bit ∷ (to_bits (width max) n ++ rest)
        → Skips s max key rest (skip_label (new_reader s) max)
    unfolding skip_label new_reader
    skip_same bit e =
        let k = width max in
        let (first, p) = next_bit s w true _ e in
        let (second, q) = next_bit (moved s 1) p.valid true _ p.spells in
        let q' = Passed-twice s 1 1 2 _ (omega arith) q in
        let (third, y) = next_bit (moved s 2) q'.valid bit _ q'.spells in
        let y' = Passed-twice s 2 1 3 _ (omega arith) y in
        let (runs, z) =
          get_next_size-Passed max positive small (moved s 3) y'.valid n _ h y'.spells in
        (
          3 + k,
          rw
              (
                is_empty-eq true _ e,
                first,
                second,
                moved-moved s 1 1,
                third,
                moved-moved s 2 1,
                runs,
                less-eq max n h,
              )
              (ap (λ t. ok (read_up_to t, max - n)) (moved-moved s 3 k)),
          Passed-twice s 3 k (3 + k) rest refl z,
        )

    -- From a window that starts with a label of the grammar for a key of at most `max` bits, in
    -- which numbers have the width of `max`, 1 to 65535, `skip_label` returns a reader of what
    -- follows, and takes the length of the key off `max`.
    pub skip_label-Skips :
        (code : List Bool)
        → IsLabel (width max) key code
        → bits s ≡ code ++ rest
        → Skips s max key rest (skip_label (new_reader s) max)
    skip_label-Skips code (inl d) e = skip_long (
        e
        ∙ ap (λ c. c ++ rest) d
        ∙ ap (λ t. true ∷ false ∷ t) (append_assoc (to_bits (width max) n) key rest))
    skip_label-Skips code (inr (inl d)) e = skip_short (
        e
        ∙ ap (λ c. c ++ rest) d
        ∙ ap (false ∷◌) (append_assoc (replicate n true) (false ∷ key) rest))
    skip_label-Skips code (inr (inr (bit, d, c))) e = skip_same bit (e ∙ ap (λ c. c ++ rest) c)
