-- ===== src/Slice/Prefix/Splits.antt =====
-- `common_prefix` splits two windows behind their longest common prefix.
use ton_labs_types.Base.{
  ℕ, ◌+◌, ◌-◌, ◌≤◌, ◌<◌, ◌≡◌, refl, sym, ap, ap₂, ◌∙◌, Bool, true, false, List, [], ◌∷◌, Option,
  none, some, ltb, leb, if◌then◌else◌, Bool-cases, inl, inr, arith, length, take, drop, take_all,
  take-take, subst,
}
use ton_labs_types.Types.{Result, ok}
use ton_labs_types.Bits.{bytes_bits}
use ton_labs_types.Bits.Common.{common, common_le, take-common}
use ton_labs_types.Cell.Tree.{Cell}
use ton_labs_types.Cell.Tree as Tree
use ton_labs_types.Slice.{
  SliceData, remaining_bits, remaining_references, references_from, shrink_data, shrink_references,
  included, excluded, unbounded,
}
use ton_labs_types.Slice.Spec.{bits, IsWindow}
use ton_labs_types.Slice.Window.{length-bits, remaining, moved, all_dropped, references_moved}
use ton_labs_types.Slice.Prefix.{common_prefix, split_at_prefix, nonempty}
use ton_labs_types.Slice.Prefix.Shared.{longest, Stops, shared_bytes-common, shared_bits-common}

-- What is left of a slice behind `n` bits, if anything is.
abbrev pub behind : SliceData → ℕ → Option SliceData
behind s n = if ltb n (length (bits s)) then some (moved s n) else none

-- A slice without references for some bits, or `none` for no bits.
abbrev pub IsPrefix : Option SliceData → List Bool → Type 0
IsPrefix none l = l ≡ []
IsPrefix (some t) l = (bits t ≡ l) × IsWindow t × (remaining_references t ≡ 0) × (0 < length l)

-- The longest common prefix, and what is left of both.
abbrev pub SplitsAt :
    SliceData
    → SliceData
    → ℕ
    → Result (Option SliceData × Option SliceData × Option SliceData)
    → Type 0
SplitsAt a b n r =
    (p : Option SliceData) × (r ≡ ok (p, behind a n, behind b n)) × IsPrefix p (take n (bits a))

pub shrink-moved :
    (s : SliceData)
    → IsWindow s
    → (n : ℕ) → n ≤ length (bits s)
    → (shrink_data s (included n) unbounded).0 ≡ moved s n
unfolding shrink_data remaining_bits
shrink-moved s w n h = ground (
  arith,
  length-bits s w,
  ap (λ k. record s { data_start = s.data_start + n; data_end = k }) same_end,
)
  where
    same_end : s.data_start + (s.data_end - s.data_start) ≡ s.data_end
    same_end = omega (arith, w.ordered)

nonempty-moved :
    (s : SliceData) → IsWindow s → (n : ℕ) → n ≤ length (bits s) → nonempty (moved s n) ≡ behind s n
unfolding nonempty remaining_bits
nonempty-moved s w n h = ground (arith, length-bits s w)

-- The part of a window from its start.
abbrev head : SliceData → ℕ → SliceData
head s n = record s { data_start = s.data_start + 0; data_end = s.data_start + n }

shrink-head :
    (s : SliceData)
    → IsWindow s
    → (n : ℕ) → n ≤ length (bits s)
    → (shrink_data s unbounded (excluded n)).0 ≡ head s n
unfolding shrink_data remaining_bits
shrink-head s w n h = ground (arith, length-bits s w)

head-bits :
    (s : SliceData) → (n : ℕ) → n ≤ s.data_end - s.data_start → bits (head s n) ≡ take n (bits s)
head-bits s n h =
    ap₂ (λ k m. take k (drop m (bytes_bits (Tree.data_bytes s.cell))))
      {x = s.data_start + n - (s.data_start + 0)} {y = n} {v = s.data_start} (omega arith)
      (omega arith)
    ∙ sym (
        take-take n (s.data_end - s.data_start)
          (drop s.data_start (bytes_bits (Tree.data_bytes s.cell))) h)

head-IsWindow : (s : SliceData) → IsWindow s → (n : ℕ) → n ≤ length (bits s) → IsWindow (head s n)
head-IsWindow s w n h = record {
  ordered = omega arith;
  inside = omega (arith, length-bits s w, w.inside, w.ordered);
  all_bytes = w.all_bytes;
}

-- A window with no references.
abbrev bare : SliceData → SliceData
bare s = record s {
  references_end = s.references_start + 0;
  references_start = s.references_start + 0;
}

bare-IsPrefix : (s : SliceData) → IsWindow s → IsPrefix (nonempty (bare s)) (bits s)
unfolding nonempty
bare-IsPrefix s w = elim (Bool-cases (ltb 0 (remaining_bits (bare s)))) [
  | inl e ↦ rw e (refl, bare_window, no_references, full e)
  | inr e ↦ rw e (empty (bits s) (none_left e))
]
  where
    bare_window : IsWindow (bare s)
    bare_window = record { ordered = w.ordered; inside = w.inside; all_bytes = w.all_bytes }

    no_references : remaining_references (bare s) ≡ 0
    no_references = unfold remaining_references in ground arith

    full : ltb 0 (remaining_bits (bare s)) ≡ true → 0 < length (bits s)
    full e = ground (arith, remaining (bare s) bare_window)

    none_left : ltb 0 (remaining_bits (bare s)) ≡ false → length (bits s) ≡ 0
    none_left e = ground (arith, remaining (bare s) bare_window)

    empty : (l : List Bool) → length l ≡ 0 → l ≡ []
    empty [] e = refl
    empty (x ∷ l) e = absurd (omega arith)

module _ (a b : SliceData) (wa : IsWindow a) (wb : IsWindow b) (n : ℕ)
    (below_a : n ≤ length (bits a)) (below_b : n ≤ length (bits b)) where
  split-SplitsAt :
      (prefix : SliceData) (w : IsWindow prefix) (refs : List Cell)
      → references_from prefix 0 (remaining_references prefix) ≡ ok refs
      → bits prefix ≡ take n (bits a)
      → SplitsAt a b n (split_at_prefix prefix a b n)
  unfolding split_at_prefix
  split-SplitsAt prefix w refs present e = (
    nonempty (bare prefix),
    rw
        (
          dropped,
          shrink-moved a wa n below_a,
          shrink-moved b wb n below_b,
          nonempty-moved a wa n below_a,
          nonempty-moved b wb n below_b,
        )
        refl,
    subst (IsPrefix (nonempty (bare prefix))) e (bare-IsPrefix prefix w),
  )
    where
      dropped : shrink_references prefix (included 0) (excluded 0) ≡ ok (bare prefix, refs)
      dropped = unfold shrink_references in all_dropped prefix refs present

module _ (a b : SliceData) (wa : IsWindow a) (wb : IsWindow b) (refs refs' : List Cell)
    (present : references_from a 0 (remaining_references a) ≡ ok refs)
    (present' : references_from b 0 (remaining_references b) ≡ ok refs') where
  whole-SplitsAt :
      common (bits a) (bits b) ≡ longest a b wa wb
      → SplitsAt a b (common (bits a) (bits b)) (
          split_at_prefix
            (if ltb (length (bits a)) (length (bits b)) then a else b)
            a
            b
            (longest a b wa wb))
  whole-SplitsAt e =
      subst
        (λ n.
          SplitsAt a b (common (bits a) (bits b))
            (split_at_prefix (if ltb (length (bits a)) (length (bits b)) then a else b) a b n))
        e
        (elim (Bool-cases (ltb (length (bits a)) (length (bits b)))) [
          | inl h ↦ rw h (
              split-SplitsAt a b wa wb (common (bits a) (bits b)) (common_le (bits a) (bits b)).0
                (common_le (bits a) (bits b)).1 a wa refs present
                (sym (take_all (common (bits a) (bits b)) (bits a) (ground (arith, e)))))
          | inr h ↦ rw h (
              split-SplitsAt a b wa wb (common (bits a) (bits b)) (common_le (bits a) (bits b)).0
                (common_le (bits a) (bits b)).1 b wb refs' present'
                (sym (take_all (common (bits a) (bits b)) (bits b) (ground (arith, e)))
                  ∙ sym (take-common (bits a) (bits b))))
        ])

  head-SplitsAt :
      (o m : ℕ)
      → common (bits a) (bits b) ≡ o + m
      → SplitsAt a b
          (common (bits a) (bits b))
          (split_at_prefix (shrink_data a unbounded (excluded (o + m))).0 a b (o + m))
  unfolding remaining_references
  head-SplitsAt o m e =
      subst
        (λ n.
          SplitsAt a b (common (bits a) (bits b))
            (split_at_prefix (shrink_data a unbounded (excluded n)).0 a b n))
        e
        (rw (shrink-head a wa (common (bits a) (bits b)) low.0) (
          split-SplitsAt a b wa wb (common (bits a) (bits b)) low.0 low.1
            (head a (common (bits a) (bits b)))
            (head-IsWindow a wa (common (bits a) (bits b)) low.0) refs
            (references_moved a (a.data_start + 0) (a.data_start + common (bits a) (bits b)) 0
                (remaining_references a)
              ∙ present)
            (head-bits a (common (bits a) (bits b)) (omega (arith, low.0, length-bits a wa)))))
    where
      low :
          (common (bits a) (bits b) ≤ length (bits a))
          × (common (bits a) (bits b) ≤ length (bits b))
      low = common_le (bits a) (bits b)

  -- `common_prefix` of two windows whose references are there succeeds: it returns the longest
  -- common prefix of their bits as a slice without references, and what is left of the two windows
  -- behind it, each `None` if it has no bits.
  pub common_prefix-SplitsAt : SplitsAt a b (common (bits a) (bits b)) (common_prefix a b)
  unfolding common_prefix
  common_prefix-SplitsAt =
      let (o, runs, stops) = shared_bytes-common a b wa wb in
      elim (Bool-cases (leb (longest a b wa wb) o)) [
        | inl e ↦ rw (remaining a wa, remaining b wb, runs, e) (whole-SplitsAt (at_end o stops e))
        | inr e ↦
            let (m, counts, total) = shared_bits-common a b wa wb o stops (ground arith) in
            rw (remaining a wa, remaining b wb, runs, e, counts) (head-SplitsAt o m total)
      ]
    where
      at_end :
          (o : ℕ)
          → Stops a b wa wb o
          → leb (longest a b wa wb) o ≡ true
          → common (bits a) (bits b) ≡ longest a b wa wb
      at_end o stops e = ground (arith, stops.upto, stops.within, common_le (bits a) (bits b))
