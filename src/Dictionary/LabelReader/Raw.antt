-- ===== src/Dictionary/LabelReader/Raw.antt =====
-- `get_label_raw` reads every label of the grammar.
use ton_labs_types.Base.{
  sym, append_assoc, subst, inl, inr, ℕ, ◌+◌, ◌-◌, ◌^◌, ◌≤◌, ◌<◌, ◌≡◌, ◌≢◌, refl, ap, ◌∙◌, Bool,
  true, false, List, ◌∷◌, ◌++◌, arith, length, replicate,
}
use ton_labs_types.Types.{Result, ok}
use ton_labs_types.Bits.{to_bits}
use ton_labs_types.Cell.Tree.{Cell}
use ton_labs_types.Builder.{BuilderData}
use ton_labs_types.Builder.Spec as Builder
use ton_labs_types.Builder.Append.{Appended}
use ton_labs_types.Slice.{SliceData, is_empty}
use ton_labs_types.Slice.Spec.{bits, IsWindow}
use ton_labs_types.Slice.Window.{length-bits, moved}
use ton_labs_types.Dictionary.Label.Width.{width}
use ton_labs_types.Dictionary.LabelReader.{new_reader, read_up_to, LabelReader}
use ton_labs_types.Dictionary.LabelReader.Parts.{
  HasReferences, moved-HasReferences, Passed, next_bit, moved-moved, Passed-twice,
}
use ton_labs_types.Dictionary.LabelReader.{get_label_raw}
use ton_labs_types.Slice.{is_empty}
use ton_labs_types.Slice.Transfer.{append_bytestring}
use ton_labs_types.Slice.Bytes.{append_bytestring-Appended}
use ton_labs_types.Dictionary.Label.Spec.{IsLabel}
use ton_labs_types.Dictionary.LabelReader.Reads.{same-Passed, short-Gives, long-Gives}

-- What `get_label_raw` gives: a builder with the key behind the old bits, `max` without the key, and
-- a reader past the label.
abbrev pub ReadsRaw :
    SliceData
    → ℕ
    → BuilderData
    → List Bool
    → List Bool
    → Result (LabelReader × ℕ × BuilderData)
    → Type 0
ReadsRaw s max b key rest r =
    (k : ℕ) × (b' : BuilderData) × (r ≡ ok (read_up_to (moved s k), max - length key, b'))
    × Appended b key b'
    × Passed s k rest

module _ (s : SliceData) (w : IsWindow s) (refs : List Cell) (present : HasReferences s refs)
    (max : ℕ) (positive : max ≢ 0) (small : max < 2 ^ 16) (b : BuilderData)
    (v : Builder.IsValid b) where
  is_empty-eq : (x : Bool) (l : List Bool) → bits s ≡ x ∷ l → is_empty s ≡ false
  unfolding is_empty
  is_empty-eq x l e = ground (arith, length-bits s w, ap length e)

  -- The key of a label behind the bits of a builder.
  key-Appended :
      (label : SliceData) (key : List Bool)
      → IsWindow label
      → bits label ≡ key
      → b.length_in_bits + length key ≤ 1023
      → (b' : BuilderData) × (append_bytestring b label ≡ ok b') × Appended b key b'
  key-Appended label key window e room =
      let (b', runs, a) =
        append_bytestring-Appended label window b v
          (omega (arith, ap length e, length-bits label window)) in
      (b', runs, subst (λ l. Appended b l b') e a)

  raw_short :
      (key rest : List Bool)
      → length key ≤ max
      → b.length_in_bits + length key ≤ 1023
      → bits s ≡ false ∷ (replicate (length key) true ++ (false ∷ (key ++ rest)))
      → ReadsRaw s max b key rest (get_label_raw (new_reader s) max b)
  unfolding get_label_raw new_reader
  raw_short key rest h room e =
      let n = length key in
      let (first, p) = next_bit s w false _ e in
      let (label, runs, g) =
        short-Gives (moved s 1) p.valid refs (moved-HasReferences s refs 1 present) max key rest h
          p.spells in
      let (b', appends, a) = key-Appended label key g.label_window g.label_bits room in
      (
        1 + (n + 1 + n),
        b',
        rw (is_empty-eq false _ e, first, runs, appends)
            (ap (λ t. ok (read_up_to t, max - n, b')) (moved-moved s 1 (n + 1 + n))),
        a,
        Passed-twice s 1 (n + 1 + n) (1 + (n + 1 + n)) rest refl g.behind,
      )

  raw_long :
      (key rest : List Bool)
      → length key ≤ max
      → b.length_in_bits + length key ≤ 1023
      → bits s ≡ true ∷ false ∷ (to_bits (width max) (length key) ++ (key ++ rest))
      → ReadsRaw s max b key rest (get_label_raw (new_reader s) max b)
  unfolding get_label_raw new_reader
  raw_long key rest h room e =
      let k = width max + length key in
      let (first, p) = next_bit s w true _ e in
      let (second, q) = next_bit (moved s 1) p.valid false _ p.spells in
      let q' = Passed-twice s 1 1 2 _ (omega arith) q in
      let (label, runs, g) =
        long-Gives (moved s 2) q'.valid refs (moved-HasReferences s refs 2 present) max key rest h
          positive small q'.spells in
      let (b', appends, a) = key-Appended label key g.label_window g.label_bits room in
      (
        2 + k,
        b',
        rw (is_empty-eq true _ e, first, second, moved-moved s 1 1, runs, appends)
            (ap (λ t. ok (read_up_to t, max - length key, b')) (moved-moved s 2 k)),
        a,
        Passed-twice s 2 k (2 + k) rest refl g.behind,
      )

  raw_same :
      (bit : Bool) (key rest : List Bool)
      → length key ≤ max
      → b.length_in_bits + length key ≤ 1023
      → key ≡ replicate (length key) bit
      → bits s ≡ true ∷ true ∷ bit ∷ (to_bits (width max) (length key) ++ rest)
      → ReadsRaw s max b key rest (get_label_raw (new_reader s) max b)
  unfolding get_label_raw new_reader
  raw_same bit key rest h room d e =
      let k = 1 + width max in
      let (first, p) = next_bit s w true _ e in
      let (second, q) = next_bit (moved s 1) p.valid true _ p.spells in
      let q' = Passed-twice s 1 1 2 _ (omega arith) q in
      let (b', runs, a, behind) =
        same-Passed (moved s 2) q'.valid refs (moved-HasReferences s refs 2 present) max key rest h
          positive small b bit v room q'.spells in
      (
        2 + k,
        b',
        rw (is_empty-eq true _ e, first, second, moved-moved s 1 1, runs)
            (ap (λ t. ok (read_up_to t, max - length key, b')) (moved-moved s 2 k)),
        subst (λ l. Appended b l b') (sym d) a,
        Passed-twice s 2 k (2 + k) rest refl behind,
      )

  -- From a window that starts with a label of the grammar for a key of at most `max` bits, in which
  -- numbers have the width of `max`, 1 to 65535, `get_label_raw` appends the key to a valid builder
  -- that has room for it, takes the length of the key off `max`, and returns a reader of what
  -- follows.
  pub get_label_raw-ReadsRaw :
      (key rest code : List Bool)
      → length key ≤ max
      → b.length_in_bits + length key ≤ 1023
      → IsLabel (width max) key code
      → bits s ≡ code ++ rest
      → ReadsRaw s max b key rest (get_label_raw (new_reader s) max b)
  get_label_raw-ReadsRaw key rest code h room (inl d) e = raw_long key rest h room (
      e
      ∙ ap (λ c. c ++ rest) d
      ∙ ap (λ t. true ∷ false ∷ t) (append_assoc (to_bits (width max) (length key)) key rest))
  get_label_raw-ReadsRaw key rest code h room (inr (inl d)) e = raw_short key rest h room (
      e
      ∙ ap (λ c. c ++ rest) d
      ∙ ap (false ∷◌) (append_assoc (replicate (length key) true) (false ∷ key) rest))
  get_label_raw-ReadsRaw key rest code h room (inr (inr (bit, d, c))) e =
      raw_same bit key rest h room d (e ∙ ap (λ c. c ++ rest) c)
