-- ===== src/Slice/Whole.antt =====
-- A slice with its references appended to a builder: `checked_append_references_and_data`.
use ton_labs_types.Base.{
  ℕ, zero, suc, ◌+◌, ◌-◌, ◌≤◌, ◌<◌, ◌≡◌, sym, ap, ◌∙◌, List, ◌∷◌, ◌++◌, arith, length, drop,
  append-nil, append_assoc, get_elem?, get_elem?-drop, drop_all, some, none, Option, [], take, ◌⊎◌,
  inl, inr, length-append,
}
use ton_labs_types.Types.{ok, fail, cell_overflow}
use ton_labs_types.Bits.{bytes_bits}
use ton_labs_types.Cell.Tree.{Cell}
use ton_labs_types.Builder.{BuilderData, append_raw, references_free}
use ton_labs_types.Builder.Spec as Builder
use ton_labs_types.Builder.Append.{append_raw-Appended}
use ton_labs_types.Builder.Operations.{bits_free, bits_used}
use ton_labs_types.Builder.Operations.Whole.{push_reference}
use ton_labs_types.Slice.{SliceData, reference, remaining_references}
use ton_labs_types.Slice.Spec.{bits, IsWindow}
use ton_labs_types.Slice.Window.{length-bits, remaining}
use ton_labs_types.Slice.Reading.{get_bytestring}
use ton_labs_types.Slice.Bytes.{get_bytestring-Starts}
use ton_labs_types.Slice.Transfer.{append_from, checked_append_references_and_data}
use native.Mathlib.Decide.{dec_le}

-- The references of a window, each of which `reference` finds.
pub record Refers (s : SliceData) (refs : List Cell) : Type 0 where
  pub count : remaining_references s ≡ length refs
  pub found :
      (i : ℕ) → i < length refs → (c : Cell) × (get_elem? refs i ≡ some c) × (reference s i ≡ ok c)

module _ (s : SliceData) (refs : List Cell) (r : Refers s refs) where
  drop-found :
      (i : ℕ) (c : Cell)
      → i < length refs
      → get_elem? refs i ≡ some c
      → drop i refs ≡ c ∷ drop (i + 1) refs
  drop-found i c h e =
      let (c', e', d) = get_elem?-drop i refs h in
      d
      ∙ ap (c' ∷◌) (ap (λ k. drop k refs) {x = suc i} {y = i + 1} (omega arith))
      ∙ ap (λ x. x ∷ drop (i + 1) refs) (ap value (sym e' ∙ e))
    where
      value : Option Cell → Cell
      value (some x) = x
      value none = c

  append_from-drop :
      (left i : ℕ) (b : BuilderData)
      → i + left ≡ length refs
      → length b.references + left ≤ 4
      → append_from b s i left ≡ ok (record b { references = b.references ++ drop i refs })
  unfolding append_from
  append_from-drop zero i b h few =
      ap (λ t. ok (record b { references = t }))
        (sym (append-nil b.references)
          ∙ ap (b.references ++◌) (sym (drop_all i refs (omega arith))))
  append_from-drop (suc left) i b h few =
      let (c, e, found) = r.found i (omega arith) in
      let next =
        append_from-drop left (i + 1) (record b { references = b.references ++ (c ∷ []) })
          (omega arith) (omega (arith, length-append b.references (c ∷ []))) in
      rw (found, push_reference b c (omega arith))
        (next
          ∙ ap (λ t. ok (record b { references = t }))
              (append_assoc b.references (c ∷ []) (drop (i + 1) refs)
                ∙ ap (b.references ++◌) (sym (drop-found i c (omega arith) e))))

  -- The bits and the references of both, in order.
  pub record Joins (b : BuilderData) (b' : BuilderData) : Type 0 where
    pub spells : Builder.bits b' ≡ Builder.bits b ++ bits s
    pub references : b'.references ≡ b.references ++ refs
    pub valid : Builder.IsValid b'
    pub cell_type : b'.cell_type ≡ b.cell_type
    pub level_mask : b'.level_mask ≡ b.level_mask

  -- The outcomes of the append, each with its condition.
  abbrev pub SliceOutcome : BuilderData → Type 0
  SliceOutcome b =
      (((1023 < b.length_in_bits + (s.data_end - s.data_start))
          ⊎ (4 < length b.references + length refs))
        × (checked_append_references_and_data b s ≡ fail cell_overflow))
      ⊎ ((b' : BuilderData) × (checked_append_references_and_data b s ≡ ok b') × Joins b b')

  module _ (w : IsWindow s) (b : BuilderData) (v : Builder.IsValid b) where
    full :
        (1023 < b.length_in_bits + (s.data_end - s.data_start))
          ⊎ (4 < length b.references + length refs)
        → checked_append_references_and_data b s ≡ fail cell_overflow
    unfolding checked_append_references_and_data bits_free bits_used references_free
    full h = ground (arith, r.count, remaining s w, length-bits s w)

    joined :
        b.length_in_bits + (s.data_end - s.data_start) ≤ 1023
        → length b.references + length refs ≤ 4
        → (b' : BuilderData) × (checked_append_references_and_data b s ≡ ok b') × Joins b b'
    joined room few =
        let (xs, read, t) = get_bytestring-Starts s w 0 in
        let n = s.data_end - s.data_start in
        let (b', grows, a) =
          append_raw-Appended b xs n v t.all_bytes (omega (arith, t.count, length-bits s w)) room in
        let pushes =
          append_from-drop (length refs) 0 b' (omega arith)
            (omega (arith, ap length a.references)) in
        (
          record b' { references = b'.references ++ refs },
          runs xs b' read grows pushes,
          record {
            spells =
                a.spells
                ∙ ap (Builder.bits b ++◌)
                    (ap (λ k. take k (bytes_bits xs)) (sym (length-bits s w)) ∙ t.spells);
            references = ap (λ cs. cs ++ refs) a.references;
            valid = record {
              covered = a.valid.covered;
              in_capacity = a.valid.in_capacity;
              stored = a.valid.stored;
              all_bytes = a.valid.all_bytes;
              few_references =
                  omega (arith, length-append b'.references refs, ap length a.references);
            };
            cell_type = a.cell_type;
            level_mask = a.level_mask;
          },
        )
      where
        runs :
            (xs : List ℕ) (b' : BuilderData)
            → get_bytestring s 0 ≡ ok xs
            → append_raw b xs (s.data_end - s.data_start) ≡ ok b'
            → append_from b' s 0 (length refs)
              ≡ ok (record b' { references = b'.references ++ refs })
            → checked_append_references_and_data b s
              ≡ ok (record b' { references = b'.references ++ refs })
        runs xs b' read grows pushes =
            unfold checked_append_references_and_data bits_free bits_used references_free in
            ground (arith, r.count, remaining s w, length-bits s w, read, grows, pushes)

    -- To a valid builder `checked_append_references_and_data` appends a slice in one of two ways: if
    -- the bits or the references do not fit it is `CellOverflow`; else it succeeds, with a valid
    -- builder that has the bits and the references of both, in order, and the builder's type and
    -- level mask.
    pub append_slice-outcome : SliceOutcome b
    append_slice-outcome = elim (dec_le (b.length_in_bits + (s.data_end - s.data_start)) 1023) [
      | no h ↦ inl (inl (omega arith), full (inl (omega arith)))
      | yes h ↦ elim (dec_le (length b.references + length refs) 4) [
        | no k ↦ inl (inr (omega arith), full (inr (omega arith)))
        | yes k ↦ inr (joined h k)
      ]
    ]
