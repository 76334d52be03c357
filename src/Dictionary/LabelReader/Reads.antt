-- ===== src/Dictionary/LabelReader/Reads.antt =====
-- `get_label` reads every label of the grammar.
use ton_labs_types.Base.{
  ℕ, ◌+◌, ◌-◌, ◌^◌, ◌≤◌, ◌<◌, ◌≡◌, ◌≢◌, refl, ap, ◌∙◌, Bool, true, false, List, ◌∷◌, ◌++◌, arith,
  length, replicate, length-append, length-replicate,
}
use ton_labs_types.Types.{Result, ok}
use ton_labs_types.Bits.{to_bits}
use ton_labs_types.Cell.Tree.{Cell}
use ton_labs_types.Builder.{BuilderData}
use ton_labs_types.Builder.Spec as Builder
use ton_labs_types.Builder.Append.{Appended}
use ton_labs_types.Slice.{SliceData, remaining_bits, remaining_references, is_empty}
use ton_labs_types.Slice.Spec.{bits, IsWindow}
use ton_labs_types.Slice.Window.{length-bits, moved, remaining}
use ton_labs_types.Dictionary.Label.Width.{width}
use ton_labs_types.Dictionary.LabelReader.{
  get_label_short, get_label_long, get_label_same, get_label, less, unary, new_reader, read_up_to,
  LabelReader,
}
use ton_labs_types.Dictionary.LabelReader.Parts.{
  HasReferences, moved-HasReferences, Passed, passed, next_bit, moved-moved, Passed-twice,
  count_ones-Passed, cut_label-Cuts, front_of,
}
use ton_labs_types.Dictionary.LabelReader.Sizes.{get_next_size-Passed, equal_bits-Appended}

-- The label that is read, and the slice behind it.
pub record Gives (s : SliceData) (key rest : List Bool) (k : ℕ) (label : SliceData) : Type 0 where
  pub label_bits : bits label ≡ key
  pub label_window : IsWindow label
  pub label_references : remaining_references label ≡ 0
  pub behind : Passed s k rest

pub less-eq : (max len : ℕ) → len ≤ max → less max len ≡ ok (max - len)
unfolding less
less-eq max len h = ground arith

-- The length of a short label.
pub unary-Passed :
    (s : SliceData) (w : IsWindow s) (n : ℕ) (rest : List Bool)
    → bits s ≡ replicate n true ++ (false ∷ rest)
    → (unary s ≡ ok (moved s (n + 1), n)) × Passed s (n + 1) rest
unfolding unary
unary-Passed s w n rest e =
    let (runs, p) = count_ones-Passed (remaining_bits s + 1) n 0 s w rest e (
      omega (
        arith,
        remaining s w,
        ap length e,
        length-append (replicate n true) (false ∷ rest),
        length-replicate n true,
      )) in
    (runs ∙ ap (λ m. ok (moved s (n + 1), m)) (omega arith), p)

module _ (s : SliceData) (w : IsWindow s) (refs : List Cell) (present : HasReferences s refs)
    (max : ℕ) (key rest : List Bool) (h : length key ≤ max) where
  abbrev n : ℕ
  n = length key

  pub short-Gives :
      bits s ≡ replicate n true ++ (false ∷ (key ++ rest))
      → (label : SliceData) × (get_label_short s max ≡ ok (moved s (n + 1 + n), max - n, label))
        × Gives s key rest (n + 1 + n) label
  unfolding get_label_short
  short-Gives e =
      let (runs, p) = unary-Passed s w n (key ++ rest) e in
      let here = moved s (n + 1) in
      let (cut, spelled, window, none_left) =
        cut_label-Cuts here p.valid refs (moved-HasReferences s refs (n + 1) present) key rest
          p.spells in
      (
        front_of here n,
        rw (runs, less-eq max n h, cut)
            (ap (λ t. ok (t, max - n, front_of here n)) (moved-moved s (n + 1) n)),
        record {
          label_bits = spelled;
          label_window = window;
          label_references = none_left;
          behind =
              Passed-twice s (n + 1) n (n + 1 + n) rest refl
                (passed here p.valid key rest p.spells);
        },
      )

  module _ (positive : max ≢ 0) (small : max < 2 ^ 16) where
    pub long-Gives :
        bits s ≡ to_bits (width max) n ++ (key ++ rest)
        → (label : SliceData) × (get_label_long s max
            ≡ ok (moved s (width max + n), max - n, label))
          × Gives s key rest (width max + n) label
    unfolding get_label_long
    long-Gives e =
        let (runs, p) = get_next_size-Passed max positive small s w n (key ++ rest) h e in
        let here = moved s (width max) in
        let (cut, spelled, window, none_left) =
          cut_label-Cuts here p.valid refs (moved-HasReferences s refs (width max) present) key rest
            p.spells in
        (
          front_of here n,
          rw (runs, less-eq max n h, cut)
              (ap (λ t. ok (t, max - n, front_of here n)) (moved-moved s (width max) n)),
          record {
            label_bits = spelled;
            label_window = window;
            label_references = none_left;
            behind =
                Passed-twice s (width max) n (width max + n) rest refl
                  (passed here p.valid key rest p.spells);
          },
        )

    pub same-Passed :
        (b : BuilderData) (bit : Bool)
        → Builder.IsValid b
        → b.length_in_bits + n ≤ 1023
        → bits s ≡ bit ∷ (to_bits (width max) n ++ rest)
        → (b' : BuilderData) × (get_label_same s max b ≡ ok (moved s (1 + width max), max - n, b'))
          × Appended b (replicate n bit) b'
          × Passed s (1 + width max) rest
    unfolding get_label_same
    same-Passed b bit v fits e =
        let (read, p) = next_bit s w bit (to_bits (width max) n ++ rest) e in
        let (runs, q) =
          get_next_size-Passed max positive small (moved s 1) p.valid n rest h p.spells in
        let (b', appends, a) = equal_bits-Appended b n bit v fits in
        (
          b',
          rw (read, runs, appends, less-eq max n h)
              (ap (λ t. ok (t, max - n, b')) (moved-moved s 1 (width max))),
          a,
          Passed-twice s 1 (width max) (1 + width max) rest refl q,
        )

-- What `get_label` gives: the label in a slice of its own, and a reader past it.
abbrev pub ReadsLabel :
    SliceData → List Bool → List Bool → Result (LabelReader × SliceData) → Type 0
ReadsLabel s key rest r =
    (k : ℕ) × (label : SliceData) × (r ≡ ok (read_up_to (moved s k), label))
    × Gives s key rest k label

module _ (sha256 : List ℕ → List ℕ) (s : SliceData) (w : IsWindow s) (refs : List Cell)
    (present : HasReferences s refs) (max : ℕ) where
  pub not_empty : (x : Bool) (l : List Bool) → bits s ≡ x ∷ l → is_empty s ≡ false
  unfolding is_empty
  not_empty x l e = let long = ap length e ∙ refl in ground (arith, length-bits s w, long)

  pub reads_short :
      (key rest : List Bool)
      → length key ≤ max
      → bits s ≡ false ∷ (replicate (length key) true ++ (false ∷ (key ++ rest)))
      → ReadsLabel s key rest (get_label sha256 (new_reader s) max)
  unfolding get_label new_reader
  reads_short key rest h e =
      let (first, p) = next_bit s w false _ e in
      let (label, runs, g) =
        short-Gives (moved s 1) p.valid refs (moved-HasReferences s refs 1 present) max key rest h
          p.spells in
      let n = length key in
      (
        1 + (n + 1 + n),
        label,
        rw (not_empty false _ e, first, runs)
            (ap (λ t. ok (read_up_to t, label)) (moved-moved s 1 (n + 1 + n))),
        record {
          label_bits = g.label_bits;
          label_window = g.label_window;
          label_references = g.label_references;
          behind = Passed-twice s 1 (n + 1 + n) (1 + (n + 1 + n)) rest refl g.behind;
        },
      )

  module _ (positive : max ≢ 0) (small : max < 2 ^ 16) where
    pub reads_long :
        (key rest : List Bool)
        → length key ≤ max
        → bits s ≡ true ∷ false ∷ (to_bits (width max) (length key) ++ (key ++ rest))
        → ReadsLabel s key rest (get_label sha256 (new_reader s) max)
    unfolding get_label new_reader
    reads_long key rest h e =
        let (first, p) = next_bit s w true _ e in
        let (second, q) = next_bit (moved s 1) p.valid false _ p.spells in
        let q' = Passed-twice s 1 1 2 _ (omega arith) q in
        let (label, runs, g) =
          long-Gives (moved s 2) q'.valid refs (moved-HasReferences s refs 2 present) max key rest h
            positive small q'.spells in
        let k = width max + length key in
        (
          2 + k,
          label,
          rw (not_empty true _ e, first, second, moved-moved s 1 1, runs)
              (ap (λ t. ok (read_up_to t, label)) (moved-moved s 2 k)),
          record {
            label_bits = g.label_bits;
            label_window = g.label_window;
            label_references = g.label_references;
            behind = Passed-twice s 2 k (2 + k) rest refl g.behind;
          },
        )
