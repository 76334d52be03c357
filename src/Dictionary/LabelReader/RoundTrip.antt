-- ===== src/Dictionary/LabelReader/RoundTrip.antt =====
-- A label is read back.
use ton_labs_types.Base.{
  ℕ, ◌+◌, ◌-◌, ◌^◌, ◌≤◌, ◌<◌, ◌≡◌, ◌≢◌, refl, sym, ap, ◌∙◌, Bool, true, false, List, ◌∷◌, ◌++◌,
  append_assoc, subst, arith, length, inl, inr, replicate,
}
use ton_labs_types.Types.{Result, ok}
use ton_labs_types.Bits.{to_bits}
use ton_labs_types.Cell.Tree.{Cell}
use ton_labs_types.Builder.{BuilderData, new}
use ton_labs_types.Builder.Append.{Appended}
use ton_labs_types.Builder.IntoCell.{AllFlat}
use ton_labs_types.Slice.{SliceData, remaining_references}
use ton_labs_types.Slice.Spec.{bits, IsWindow}
use ton_labs_types.Slice.Window.{length-bits, moved}
use ton_labs_types.Slice.Transfer.{load_builder}
use ton_labs_types.Slice.Load.{load_builder-Loads}
use ton_labs_types.Dictionary.Label.Spec.{IsLabel}
use ton_labs_types.Dictionary.Label.Width.{width}
use ton_labs_types.Dictionary.LabelReader.{get_label, new_reader, read_up_to}
use ton_labs_types.Dictionary.LabelReader.Parts.{
  HasReferences, moved-HasReferences, next_bit, moved-moved, Passed-twice,
}
use ton_labs_types.Builder.Spec as Builder
use ton_labs_types.Types.{err, panic}
use ton_labs_types.Dictionary.Label.{hm_label}
use ton_labs_types.Dictionary.Label.Shortest.{nonempty-IsShortest}
use ton_labs_types.Dictionary.LabelReader.Sizes.{new-IsValid}
use ton_labs_types.Dictionary.LabelReader.Reads.{
  ReadsLabel, same-Passed, not_empty, reads_short, reads_long,
}

module _ (sha256 : List ℕ → List ℕ) (s : SliceData) (w : IsWindow s) (refs : List Cell)
    (present : HasReferences s refs) (max : ℕ) (positive : max ≢ 0) (small : max < 2 ^ 16) where
  -- The builder of equal bits as a slice.
  loaded_bits :
      (n : ℕ) (bit : Bool) (b : BuilderData)
      → Appended new (replicate n bit) b
      → (label : SliceData) × (load_builder sha256 b ≡ ok label)
        × (bits label ≡ replicate n bit)
        × IsWindow label
        × (remaining_references label ≡ 0)
  loaded_bits n bit b a =
      let (label, runs, l) =
        load_builder-Loads sha256 b 0 a.valid a.cell_type a.level_mask (omega arith)
          (subst (AllFlat 0) (sym a.references) tt) in
      (label, runs, l.spells ∙ a.spells, l.window, l.references_count ∙ ap length a.references)

  reads_same :
      (bit : Bool) (key rest : List Bool)
      → length key ≤ max
      → length key ≤ 1023
      → key ≡ replicate (length key) bit
      → bits s ≡ true ∷ true ∷ bit ∷ (to_bits (width max) (length key) ++ rest)
      → ReadsLabel s key rest (get_label sha256 (new_reader s) max)
  unfolding get_label new_reader
  reads_same bit key rest h few d e =
      let (first, p) = next_bit s w true _ e in
      let (second, q) = next_bit (moved s 1) p.valid true _ p.spells in
      let q' = Passed-twice s 1 1 2 _ (omega arith) q in
      let (b, runs, a, behind) =
        same-Passed (moved s 2) q'.valid refs (moved-HasReferences s refs 2 present) max key rest h
          positive small new bit new-IsValid (omega arith) q'.spells in
      let (label, loads, spelled, window, none_left) = loaded_bits (length key) bit b a in
      let k = 1 + width max in
      (
        2 + k,
        label,
        rw
            (
              not_empty sha256 s w refs present max true _ e,
              first,
              second,
              moved-moved s 1 1,
              runs,
              loads,
            )
            (ap (λ t. ok (read_up_to t, label)) (moved-moved s 2 k)),
        record {
          label_bits = spelled ∙ sym d;
          label_window = window;
          label_references = none_left;
          behind = Passed-twice s 2 k (2 + k) rest refl behind;
        },
      )

  -- From a window that starts with a label of the grammar for a key of at most `max` and 1023 bits,
  -- in which numbers have the width of `max`, 1 to 65535, `get_label` returns a slice that spells
  -- the key and has no references, and a reader of what follows.
  pub get_label-ReadsLabel :
      (key rest code : List Bool)
      → length key ≤ max
      → length key ≤ 1023
      → IsLabel (width max) key code
      → bits s ≡ code ++ rest
      → ReadsLabel s key rest (get_label sha256 (new_reader s) max)
  get_label-ReadsLabel key rest code h few (inl d) e =
      reads_long sha256 s w refs present max positive small key rest h (
        e
        ∙ ap (λ c. c ++ rest) d
        ∙ ap (λ t. true ∷ false ∷ t) (append_assoc (to_bits (width max) (length key)) key rest))
  get_label-ReadsLabel key rest code h few (inr (inl d)) e =
      reads_short sha256 s w refs present max key rest h (
        e
        ∙ ap (λ c. c ++ rest) d
        ∙ ap (false ∷◌) (append_assoc (replicate (length key) true) (false ∷ key) rest))
  get_label-ReadsLabel key rest code h few (inr (inr (bit, d, c))) e =
      reads_same bit key rest h few d (e ∙ ap (λ c. c ++ rest) c)

ok-injective : {A : Type 0} (a b : A) → ok a ≡ ok b → a ≡ b
ok-injective {A} a b e = ap value e
  where
    value : Result A → A
    value (ok x) = x
    value (err x) = a
    value panic = a

-- A label that `hm_label` wrote is read back: from a window that starts with its bits, `get_label`
-- with the same `max`, 1 to 65535, returns a slice that spells the key, and a reader of what
-- follows. The key has 1 to `max` bits, and a long label for it has at most 1023.
pub get_label-hm_label :
    (sha256 : List ℕ → List ℕ) (key : SliceData) (window : IsWindow key) (max : ℕ)
    → key.data_start < key.data_end
    → key.data_end - key.data_start ≤ max
    → max < 2 ^ 16
    → 2 + width max + (key.data_end - key.data_start) ≤ 1023
    → (b : BuilderData) → hm_label key max ≡ ok b
    → (s : SliceData) (w : IsWindow s) (refs : List Cell) → HasReferences s refs
    → (rest : List Bool) → bits s ≡ Builder.bits b ++ rest
    → ReadsLabel s (bits key) rest (get_label sha256 (new_reader s) max)
get_label-hm_label sha256 key window max some_bits below small fits b written s w refs present rest
      e =
    let (b', code, writes, v, (label, least)) =
      nonempty-IsShortest key window max some_bits (omega arith) fits in
    let same = ok-injective b b' (sym written ∙ writes) in
    get_label-ReadsLabel sha256 s w refs present max (omega arith) small (bits key) rest code
      (omega (arith, length-bits key window)) (omega (arith, length-bits key window)) label
      (e ∙ ap (λ c. Builder.bits c ++ rest) same ∙ ap (λ c. c ++ rest) v.spells)
