-- ===== src/Slice/Prefix/Erase.antt =====
-- `erase_prefix` of a slice without references.
use ton_labs_types.Base.{
  ℕ, ◌+◌, ◌≤◌, ◌<◌, ◌≡◌, ◌⊎◌, refl, sym, ap, ◌∙◌, Bool, true, false, List, [], ◌++◌, ltb,
  Bool-cases, inl, inr, arith, length, take, drop, take_all, drop_all, drop-append_eq,
  take-append-drop, length-append, append-nil,
}
use ton_labs_types.Types.{Result, ok}
use ton_labs_types.Bits.Common.{common, common_nil, common-append_same, common_le, take-common}
use ton_labs_types.Cell.Tree.{Cell}
use ton_labs_types.Slice.{
  SliceData, remaining_references, references_from, shrink_data, is_empty, included, excluded,
}
use ton_labs_types.Slice.Spec.{bits, IsWindow}
use ton_labs_types.Slice.Window.{length-bits, remaining, moved, move_by-Moved}
use ton_labs_types.Slice.Prefix.{erased_to, erase_prefix}
use ton_labs_types.Slice.Prefix.Splits.{behind, common_prefix-SplitsAt}
use ton_labs_types.Slice.Prefix.Compare.{same_slice-Agrees}
use ton_labs_types.Bits.Common.{no_bits}

-- Whether the bits start with `front`.
abbrev pub StartsWith : List Bool → List Bool → Type 0
StartsWith front l = (rest : List Bool) × (l ≡ front ++ rest)

starts_common : (xs ys : List Bool) → common xs ys ≡ length ys → StartsWith ys xs
starts_common xs ys e = (
  drop (length ys) xs,
  sym (take-append-drop (length ys) xs)
      ∙ ap (λ t. t ++ drop (length ys) xs)
          (ap (λ n. take n xs) (sym e)
            ∙ take-common xs ys
            ∙ take_all (common xs ys) ys (omega (arith, e))),
)

common_starts : (xs ys rest : List Bool) → xs ≡ ys ++ rest → common xs ys ≡ length ys
common_starts xs ys rest e = omega (
  arith,
  ap (λ l. common l ys) e,
  ap (common (ys ++ rest)) (sym (append-nil ys)),
  common-append_same ys rest [],
  common_nil rest,
)

-- What `erase_prefix` of a key does: it takes the label off its front, or leaves the key as it is.
pub record Erased (s prefix s' : SliceData) : Type 0 where
  pub splits : bits s ≡ bits prefix ++ bits s'
  pub window : IsWindow s'
  pub bare : remaining_references s' ≡ 0

abbrev pub Erases : SliceData → SliceData → Result (SliceData × Bool) → Type 0
Erases s prefix r =
    ((s' : SliceData) × (r ≡ ok (s', true)) × Erased s prefix s' × (0 < length (bits s)))
    ⊎ ((r ≡ ok (s, false)) × ((bits s ≡ []) ⊎ ¬ StartsWith (bits prefix) (bits s)))

-- The slice that has no bits left.
abbrev used_up : SliceData → SliceData
used_up s = record s { data_end = s.data_start + 0; data_start = s.data_start + 0 }

shrink-used_up : (s : SliceData) → (shrink_data s (included 0) (excluded 0)).0 ≡ used_up s
unfolding shrink_data
shrink-used_up s = ground arith

module _ (s prefix : SliceData) (w : IsWindow s) (w' : IsWindow prefix)
    (bare : remaining_references s ≡ 0) (bare' : remaining_references prefix ≡ 0) where
  used_up-Erased : bits s ≡ bits prefix → Erased s prefix (used_up s)
  unfolding remaining_references
  used_up-Erased e = record {
    splits = e ∙ sym (append-nil (bits prefix)) ∙ ap (λ l. bits prefix ++ l) (sym nothing);
    window = record {
      ordered = omega arith;
      inside = omega (arith, w.inside, w.ordered);
      all_bytes = w.all_bytes;
    };
    bare = bare;
  }
    where
      nothing : bits (used_up s) ≡ []
      nothing = no_bits (bits (used_up s)) (
          length-bits (used_up s) (record {
            ordered = omega arith;
            inside = omega (arith, w.inside, w.ordered);
            all_bytes = w.all_bytes;
          })
          ∙ omega arith)

  moved-Erased :
      (n : ℕ)
      → n ≤ length (bits s)
      → bits s ≡ bits prefix ++ drop n (bits s)
      → Erased s prefix (moved s n)
  unfolding remaining_references
  moved-Erased n h e =
      let (moves, m) = move_by-Moved s w n (omega (arith, length-bits s w, w.ordered)) in
      record {
        splits = e ∙ ap (λ l. bits prefix ++ l) (sym m.spells);
        window = m.valid;
        bare = bare;
      }

  -- What `common_prefix` left.
  parted-Erases :
      (n : ℕ)
      → common (bits s) (bits prefix) ≡ n
      → 0 < length (bits s)
      → Erases s prefix (ok (erased_to s (behind s n) (behind prefix n)))
  unfolding erased_to
  parted-Erases n e more = elim (Bool-cases (ltb n (length (bits prefix)))) [
    | inl short ↦ rw short (inr (refl, inr (λ h. never short h)))
    | inr whole ↦
        let all : n ≡ length (bits prefix) = ground (arith, e, common_le (bits s) (bits prefix)) in
        let (rest, d) = starts_common (bits s) (bits prefix) (e ∙ all) in
        let d' : bits s ≡ bits prefix ++ drop n (bits s) =
          d
          ∙ ap (λ l. bits prefix ++ l)
              (sym (drop-append_eq n (bits prefix) rest (sym all)) ∙ ap (drop n) (sym d)) in
        elim (Bool-cases (ltb n (length (bits s)))) [
          | inl left ↦
              rw (whole, left) (inl (moved s n, refl, moved-Erased n (ground arith) d', more))
          | inr none_left ↦
              rw (whole, none_left, shrink-used_up s)
                (inl (
                  used_up s,
                  refl,
                  used_up-Erased (
                      d'
                      ∙ ap (λ l. bits prefix ++ l) (drop_all n (bits s) (ground arith))
                      ∙ append-nil (bits prefix)),
                  more,
                ))
        ]
  ]
    where
      never : ltb n (length (bits prefix)) ≡ true → StartsWith (bits prefix) (bits s) → ⊥
      never short (rest, d) = ground (arith, e, common_starts (bits s) (bits prefix) rest d)

  module _ (refs refs' : List Cell)
      (present : references_from s 0 (remaining_references s) ≡ ok refs)
      (present' : references_from prefix 0 (remaining_references prefix) ≡ ok refs') where
    compared-Erases :
        ltb (length (bits s)) (length (bits prefix)) ≡ false
        → is_empty s ≡ false
        → is_empty prefix ≡ false
        → Erases s prefix (erase_prefix s prefix)
    unfolding erase_prefix
    compared-Erases long more more' =
        let (same, compares, agree) = same_slice-Agrees s prefix w w' bare bare' in
        elim (Bool-cases same) [
          | inl yes' ↦
              rw
                (
                  remaining s w,
                  remaining prefix w',
                  more,
                  long,
                  more',
                  compares,
                  yes',
                  shrink-used_up s,
                )
                (inl (used_up s, refl, used_up-Erased (agree yes'), some_bits more))
          | inr no' ↦
              let (p, runs, is) =
                common_prefix-SplitsAt s prefix w w' refs refs' present present' in
              rw (remaining s w, remaining prefix w', more, long, more', compares, no', runs)
                (parted-Erases (common (bits s) (bits prefix)) refl (some_bits more))
        ]
      where
        some_bits : is_empty s ≡ false → 0 < length (bits s)
        some_bits e = unfold is_empty in ground (arith, e, length-bits s w)

    -- `erase_prefix` of a slice and a prefix without references succeeds. It takes the prefix off
    -- the slice, if the slice has bits and starts with the prefix, and else leaves the slice.
    pub erase_prefix-Erases : Erases s prefix (erase_prefix s prefix)
    erase_prefix-Erases = elim (Bool-cases (is_empty s)) [
      | inl e ↦ inr (
        unfold erase_prefix in rw e refl,
        inl (no_bits (bits s) (unfold is_empty in ground (arith, e, length-bits s w))),
      )
      | inr more ↦ elim (Bool-cases (ltb (length (bits s)) (length (bits prefix)))) [
        | inl short ↦ inr (
          unfold erase_prefix in rw (remaining s w, remaining prefix w', more, short) refl,
          inr (λ h. too_short short h),
        )
        | inr long ↦ elim (Bool-cases (is_empty prefix)) [
          | inr more' ↦ compared-Erases long more more'
          | inl e ↦ inl (
            s,
            unfold erase_prefix in rw (remaining s w, remaining prefix w', more, long, e) refl,
            record {
              splits =
                  ap (λ l. l ++ bits s)
                    (sym (
                      no_bits (bits prefix)
                        (unfold is_empty in ground (arith, e, length-bits prefix w'))));
              window = w;
              bare = bare;
            },
            unfold is_empty in ground (arith, more, length-bits s w),
          )
        ]
      ]
    ]
      where
        too_short :
            ltb (length (bits s)) (length (bits prefix)) ≡ true
            → StartsWith (bits prefix) (bits s)
            → ⊥
        too_short short (rest, d) = ground (arith, ap length d, length-append (bits prefix) rest)
