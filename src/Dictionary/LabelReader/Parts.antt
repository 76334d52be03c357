-- ===== src/Dictionary/LabelReader/Parts.antt =====
-- The parts of a label: a bit, a unary number, and the bits of the key.
use ton_labs_types.Base.{
  ℕ, zero, suc, ◌+◌, ◌-◌, ◌≤◌, ◌<◌, ◌≡◌, refl, sym, ap, ap₂, ◌∙◌, Bool, true, false, List, ◌∷◌,
  ◌++◌, subst, arith, length, take, drop, take-take, get_or, replicate, length-append,
  take-append_eq, drop-append_eq,
}
use ton_labs_types.Types.{ok}
use ton_labs_types.Bits.{bytes_bits}
use ton_labs_types.Cell.Tree.{Cell}
use ton_labs_types.Cell.Tree as Tree
use ton_labs_types.Slice.{
  SliceData, remaining_bits, remaining_references, references_from, shrink_data, included, excluded,
  unbounded,
}
use ton_labs_types.Slice.Reading.{get_next_bit}
use ton_labs_types.Slice.Spec.{bits, IsWindow}
use ton_labs_types.Slice.SingleBit.{get_next_bit-Moved}
use ton_labs_types.Slice.Window.{length-bits, moved, move_by-Moved, all_dropped, references_moved}
use ton_labs_types.Dictionary.LabelReader.{count_ones, cut_label}

-- The references of the window are there.
abbrev pub HasReferences : SliceData → List Cell → Type 0
HasReferences s refs = references_from s 0 (remaining_references s) ≡ ok refs

pub moved-HasReferences :
    (s : SliceData) (refs : List Cell) (k : ℕ)
    → HasReferences s refs
    → HasReferences (moved s k) refs
unfolding remaining_references
moved-HasReferences s refs k h =
    references_moved s (s.data_start + k) s.data_end 0 (remaining_references s) ∙ h

-- A slice that moved `k` bits on, and the bits that are left.
pub record Passed (s : SliceData) (k : ℕ) (rest : List Bool) : Type 0 where
  pub spells : bits (moved s k) ≡ rest
  pub valid : IsWindow (moved s k)

pub passed :
    (s : SliceData) (w : IsWindow s) (front rest : List Bool)
    → bits s ≡ front ++ rest
    → Passed s (length front) rest
passed s w front rest e =
    let (moves, behind) =
      move_by-Moved s w (length front)
        (omega (arith, ap length e, length-append front rest, length-bits s w, w.ordered)) in
    record {
      spells =
          behind.spells
          ∙ ap (drop (length front)) e
          ∙ drop-append_eq (length front) front rest refl;
      valid = behind.valid;
    }

pub next_bit :
    (s : SliceData) (w : IsWindow s) (x : Bool) (l : List Bool)
    → bits s ≡ x ∷ l
    → (get_next_bit s ≡ ok (moved s 1, x)) × Passed s 1 l
next_bit s w x l e =
    let (bit, read, spelled, behind) =
      get_next_bit-Moved s w (omega (arith, ap length e, length-bits s w)) in
    let d = sym spelled ∙ e in
    (
      read ∙ ap (λ b. ok (moved s 1, b)) (ap (λ t. get_or t 0 x) d),
      record { spells = ap (drop 1) d; valid = behind },
    )

pub moved-moved : (s : SliceData) (a b : ℕ) → moved (moved s a) b ≡ moved s (a + b)
moved-moved s a b = ap (λ k. record s { data_start = k }) (omega arith)

pub Passed-twice :
    (s : SliceData) (a b k : ℕ) (rest : List Bool)
    → a + b ≡ k
    → Passed (moved s a) b rest
    → Passed s k rest
Passed-twice s a b k rest e q =
    let same = moved-moved s a b ∙ ap (moved s) e in
    record { spells = ap bits (sym same) ∙ q.spells; valid = subst IsWindow same q.valid }

-- Ones up to a zero are counted.
pub count_ones-Passed :
    (fuel n len : ℕ) (s : SliceData) (w : IsWindow s) (rest : List Bool)
    → bits s ≡ replicate n true ++ (false ∷ rest)
    → n < fuel
    → (count_ones fuel s len ≡ ok (moved s (n + 1), len + n)) × Passed s (n + 1) rest
unfolding count_ones
count_ones-Passed zero n len s w rest e h = absurd (omega arith)
count_ones-Passed (suc fuel) zero len s w rest e h =
    let (read, p) = next_bit s w false rest e in
    (
      rw read (ap₂ (λ k m. ok (moved s k, m)) {x = 1} {y = 0 + 1} (omega arith) (omega arith)),
      subst (λ k. Passed s k rest) {x = 1} {y = 0 + 1} (omega arith) p,
    )
count_ones-Passed (suc fuel) (suc n) len s w rest e h =
    let (read, p) = next_bit s w true (replicate n true ++ (false ∷ rest)) e in
    let (runs, q) =
      count_ones-Passed fuel n (len + 1) (moved s 1) p.valid rest p.spells (omega arith) in
    (
      rw (read, runs)
          (ap₂ (λ k m. ok (record s { data_start = k }, m)) (omega arith) (omega arith)),
      Passed-twice s 1 (n + 1) (suc n + 1) rest (omega arith) q,
    )

-- The first `n` bits of the window without references.
abbrev pub front_of : SliceData → ℕ → SliceData
front_of s n = record s {
  data_start = s.data_start + 0;
  data_end = s.data_start + n;
  references_start = s.references_start + 0;
  references_end = s.references_start + 0;
}

module _ (s : SliceData) (w : IsWindow s) (refs : List Cell) (present : HasReferences s refs)
    (key rest : List Bool) (e : bits s ≡ key ++ rest) where
  abbrev front : SliceData
  front = front_of s (length key)

  room : s.data_start + length key ≤ s.data_end
  room = omega (arith, ap length e, length-append key rest, length-bits s w, w.ordered)

  front-bits : bits front ≡ key
  front-bits =
      ap₂ (λ k m. take k (drop m (bytes_bits (Tree.data_bytes s.cell))))
        {x = s.data_start + length key - (s.data_start + 0)} {y = length key} {v = s.data_start}
        (omega arith) (omega arith)
      ∙ sym (
          take-take (length key) (s.data_end - s.data_start)
            (drop s.data_start (bytes_bits (Tree.data_bytes s.cell))) (omega (arith, room)))
      ∙ ap (take (length key)) e
      ∙ take-append_eq (length key) key rest refl

  front-IsWindow : IsWindow front
  front-IsWindow = record {
    ordered = omega arith;
    inside = omega (arith, room, w.inside);
    all_bytes = w.all_bytes;
  }

  left_over : (shrink_data s (included (length key)) unbounded).0 ≡ moved s (length key)
  unfolding shrink_data remaining_bits
  left_over = ground (
    arith,
    room,
    ap (λ k. record s { data_start = s.data_start + length key; data_end = k }) same_end,
  )
    where
      same_end : s.data_start + (s.data_end - s.data_start) ≡ s.data_end
      same_end = omega (arith, w.ordered)

  taken :
      (shrink_data
        (record s {
          references_end = s.references_start + 0;
          references_start = s.references_start + 0;
        })
        unbounded
        (excluded (length key))).0
      ≡ front
  unfolding shrink_data remaining_bits
  taken = ground (arith, room)

  no_references : remaining_references front ≡ 0
  unfolding remaining_references
  no_references = ground arith

  -- `cut_label` takes the key, without references, and leaves what follows.
  pub cut_label-Cuts :
      (cut_label s (length key) ≡ ok (moved s (length key), front))
      × (bits front ≡ key)
      × IsWindow front
      × (remaining_references front ≡ 0)
  unfolding cut_label
  cut_label-Cuts = (
    rw (all_dropped s refs present, left_over, taken) refl,
    front-bits,
    front-IsWindow,
    no_references,
  )
