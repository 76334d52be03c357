-- ===== src/Slice/Window.antt =====
-- What moving and cutting a window does to the bits it spells.
use ton_labs_types.Base.{
  ℕ, zero, suc, ◌+◌, ◌-◌, ◌≤◌, ◌≡◌, refl, sym, ap, ap₂, ◌∙◌, false, List, ◌∷◌, ◌++◌, arith, length,
  take, drop, drop-take, drop-drop, window-window, take-append-drop, length-take, length-drop, ltb,
}
use ton_labs_types.Types.{ok, unwrap_ok, ◌>>=◌}
use ton_labs_types.Bits.{bytes_bits}
use ton_labs_types.Bits.Laws.{length-bytes_bits}
use ton_labs_types.Cell.Tree.{Cell}
use ton_labs_types.Cell.Tree as Tree
use ton_labs_types.Slice.{
  SliceData, remaining_bits, remaining_references, move_by, shrink_data, shrink_references,
  references_from, reference, get_slice, get_next_slice, included, excluded, unbounded,
}
use ton_labs_types.Slice.Spec.{bits, IsWindow}

pub length-bits : (s : SliceData) → IsWindow s → length (bits s) ≡ s.data_end - s.data_start
length-bits s w = omega (
  arith,
  length-take (s.data_end - s.data_start) (drop s.data_start (bytes_bits (Tree.data_bytes s.cell))),
  length-drop s.data_start (bytes_bits (Tree.data_bytes s.cell)),
  length-bytes_bits (Tree.data_bytes s.cell),
  w.inside,
)

pub remaining : (s : SliceData) → IsWindow s → remaining_bits s ≡ length (bits s)
unfolding remaining_bits
remaining s w = ground (arith, length-bits s w)

abbrev pub moved : SliceData → ℕ → SliceData
moved s k = record s { data_start = s.data_start + k }

-- The window without its first `k` bits.
pub record Moved (s : SliceData) (k : ℕ) (s' : SliceData) : Type 0 where
  pub spells : bits s' ≡ drop k (bits s)
  pub valid : IsWindow s'
  pub same_cell : s'.cell ≡ s.cell
  pub references_start : s'.references_start ≡ s.references_start
  pub references_end : s'.references_end ≡ s.references_end

pub references_moved :
    (s : SliceData) (from to i left : ℕ)
    → references_from (record s { data_start = from; data_end = to }) i left
      ≡ references_from s i left
unfolding references_from reference
references_moved s from to i zero = refl
references_moved s from to i (suc left) =
    ap (λ rest. unwrap_ok (reference s i) >>= λ c. rest >>= λ cs. ok (c ∷ cs))
      (references_moved s from to (i + 1) left)

pub all_dropped :
    (t : SliceData) (refs : List Cell)
    → references_from t 0 (remaining_references t) ≡ ok refs
    → shrink_references t unbounded (excluded 0)
      ≡ ok (
        record t {
          references_end = t.references_start + 0;
          references_start = t.references_start + 0;
        },
        refs,
      )
unfolding shrink_references references_from
all_dropped t refs h = ground (arith, h, same)
  where
    same : remaining_references t - 0 ≡ remaining_references t
    same = omega arith

module _ (s : SliceData) (w : IsWindow s) where
  pub move_by-Moved :
      (k : ℕ)
      → s.data_start + k ≤ s.data_end
      → (move_by s k ≡ ok (moved s k)) × Moved s k (moved s k)
  unfolding move_by
  move_by-Moved k h = (
    ground arith,
    record {
      spells = sym (
          drop-take k (s.data_end - s.data_start)
            (drop s.data_start (bytes_bits (Tree.data_bytes s.cell)))
          ∙ ap (λ m. take m (drop k (drop s.data_start (bytes_bits (Tree.data_bytes s.cell)))))
              {y = s.data_end - (s.data_start + k)} (omega arith)
          ∙ ap (take (s.data_end - (s.data_start + k)))
              (drop-drop k s.data_start (bytes_bits (Tree.data_bytes s.cell))));
      valid = record { ordered = h; inside = w.inside; all_bytes = w.all_bytes };
      same_cell = refl;
      references_start = refl;
      references_end = refl;
    },
  )

  -- The part of the window that `get_slice` takes.
  abbrev part : ℕ → ℕ → SliceData
  part offset size = record s {
    data_start = s.data_start + offset;
    data_end = s.data_start + (offset + size);
    references_start = s.references_start + 0;
    references_end = s.references_start + 0;
  }

  part-bits :
      (offset size : ℕ)
      → s.data_start + (offset + size) ≤ s.data_end
      → bits (part offset size) ≡ take size (drop offset (bits s))
  part-bits offset size h =
      ap (λ k. take k (drop (s.data_start + offset) (bytes_bits (Tree.data_bytes s.cell))))
        {y = size} (omega arith)
      ∙ sym (
          window-window size offset (s.data_end - s.data_start) s.data_start
            (bytes_bits (Tree.data_bytes s.cell)) (omega arith))

  part-IsWindow :
      (offset size : ℕ) → s.data_start + (offset + size) ≤ s.data_end → IsWindow (part offset size)
  part-IsWindow offset size h = record {
    ordered = omega arith;
    inside = omega (arith, w.inside);
    all_bytes = w.all_bytes;
  }

  -- The references of the window are there.
  module _ (refs : List Cell)
      (present : references_from s 0 (remaining_references s) ≡ ok refs) where
    get_slice-part :
        (offset size : ℕ)
        → s.data_start + (offset + size) ≤ s.data_end
        → get_slice s offset size ≡ ok (part offset size)
    unfolding get_slice remaining_references
    get_slice-part offset size h = rw (enough, cut) (ap (λ r. r >>= λ p. ok (p.0)) dropped)
      where
        cut_data : SliceData
        cut_data = record s {
          data_start = s.data_start + offset;
          data_end = s.data_start + (offset + size);
        }

        enough : ltb (remaining_bits s) (offset + size) ≡ false
        enough = unfold remaining_bits in ground arith

        cut : (shrink_data s (included offset) (excluded (offset + size))).0 ≡ cut_data
        cut = unfold shrink_data remaining_bits in ground arith

        dropped : shrink_references cut_data unbounded (excluded 0) ≡ ok (part offset size, refs)
        dropped = all_dropped cut_data refs (
            references_moved s (s.data_start + offset) (s.data_start + (offset + size)) 0
              (remaining_references s)
            ∙ present)

    -- If the references of the window are there, `get_slice` returns a slice without references
    -- that spells `size` bits from `offset`.
    get_slice-bits :
        (offset size : ℕ)
        → s.data_start + (offset + size) ≤ s.data_end
        → (t : SliceData) × (get_slice s offset size ≡ ok t)
          × (bits t ≡ take size (drop offset (bits s)))
          × IsWindow t
          × (remaining_references t ≡ 0)
    get_slice-bits offset size h = (
      part offset size,
      get_slice-part offset size h,
      part-bits offset size h,
      part-IsWindow offset size h,
      none_left,
    )
      where
        none_left : remaining_references (part offset size) ≡ 0
        none_left = unfold remaining_references in ground arith

    -- If the references of the window are there, `get_next_slice` cuts the window in two: the slice
    -- that it returns spells the first `size` bits and has no references, and the slice that is
    -- left spells the others and has the references of the window.
    pub get_next_slice-bits :
        (size : ℕ)
        → s.data_start + size ≤ s.data_end
        → (t : SliceData) × (rest : SliceData) × (get_next_slice s size ≡ ok (rest, t))
          × (bits s ≡ bits t ++ bits rest)
          × (length (bits t) ≡ size)
          × (remaining_references t ≡ 0)
          × IsWindow rest
          × (references_from rest 0 (remaining_references rest) ≡ ok refs)
    unfolding remaining_references
    get_next_slice-bits size h =
        (part 0 size, moved s size, runs, splits, long, none_left, behind.valid, kept)
      where
        behind : Moved s size (moved s size)
        behind = (move_by-Moved size h).1

        left_over : (shrink_data s (included size) unbounded).0 ≡ moved s size
        left_over =
            unfold shrink_data remaining_bits in
            ground (
              arith,
              ap (λ k. record s { data_start = s.data_start + size; data_end = k }) same_end,
            )
          where
            same_end : s.data_start + (s.data_end - s.data_start) ≡ s.data_end
            same_end = omega (arith, w.ordered)

        runs : get_next_slice s size ≡ ok (moved s size, part 0 size)
        runs = unfold get_next_slice in rw (get_slice-part 0 size (omega arith), left_over)

        splits : bits s ≡ bits (part 0 size) ++ bits (moved s size)
        splits = sym (
            ap₂ (λ a b. a ++ b) (part-bits 0 size (omega arith)) behind.spells
            ∙ take-append-drop size (bits s))

        long : length (bits (part 0 size)) ≡ size
        long =
            ap length (part-bits 0 size (omega arith))
            ∙ length-take size (bits s)
            ∙ omega (arith, length-bits s w)

        kept : references_from (moved s size) 0 (remaining_references (moved s size)) ≡ ok refs
        kept =
            references_moved s (s.data_start + size) s.data_end 0 (remaining_references s) ∙ present

        none_left : remaining_references (part 0 size) ≡ 0
        none_left = unfold remaining_references in ground arith
