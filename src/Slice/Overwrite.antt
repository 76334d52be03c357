-- ===== src/Slice/Overwrite.antt =====
-- `overwrite_prefix`: the first bits of a slice are replaced.
use ton_labs_types.Base.{
  ℕ, ◌+◌, ◌-◌, ◌≤◌, ◌<◌, ◌≡◌, refl, sym, ap, ap₂, ◌∙◌, List, ◌++◌, arith, length, drop,
  length-append, length-drop, subst,
}
use ton_labs_types.Types.{ok}
use ton_labs_types.Cell.CellType.{ordinary}
use ton_labs_types.Cell.Tree.{Cell}
use ton_labs_types.Cell.Tree as Tree
use ton_labs_types.Builder.{BuilderData}
use ton_labs_types.Builder.Spec as Builder
use ton_labs_types.Builder.IntoCell.{AllFlat}
use ton_labs_types.Slice.{SliceData, is_empty, remaining_references, references_from, move_by}
use ton_labs_types.Slice.Spec.{bits, IsWindow}
use ton_labs_types.Slice.Window.{length-bits, remaining, moved, move_by-Moved}
use ton_labs_types.Slice.Transfer.{overwrite_prefix, from_slice, load_builder, append_bytestring}
use ton_labs_types.Slice.Remaining.{remaining_data-Holds}
use ton_labs_types.Slice.Bytes.{append_bytestring-Appended}
use ton_labs_types.Slice.Load.{load_builder-Loads}

-- An ordinary builder of level 0 with the bits and the references of a slice.
pub record Copies (s : SliceData) (refs : List Cell) (b : BuilderData) : Type 0 where
  pub spells : Builder.bits b ≡ bits s
  pub length_in_bits : b.length_in_bits ≡ s.data_end - s.data_start
  pub references : b.references ≡ refs
  pub cell_type : b.cell_type ≡ ordinary
  pub level_mask : b.level_mask ≡ 0
  pub valid : Builder.IsValid b

module _ (prefix : SliceData) (w : IsWindow prefix) (refs : List Cell)
    (present : references_from prefix 0 (remaining_references prefix) ≡ ok refs)
    (kind : Tree.cell_type prefix.cell ≡ ordinary) (level : Tree.level_mask prefix.cell ≡ 0)
    (few : length refs ≤ 4) where
  copied :
      prefix.data_end ≤ prefix.data_start + 1023
      → (b : BuilderData) × (from_slice prefix ≡ ok b) × Copies prefix refs b
  unfolding from_slice
  copied short =
      let (raw, e, h) = remaining_data-Holds prefix w short in
      (
        record raw { references = refs; cell_type = ordinary; level_mask = 0 },
        rw (present, e, kind, level) refl,
        record {
          spells = h.spells;
          length_in_bits = h.length_in_bits ∙ length-bits prefix w;
          references = refl;
          cell_type = refl;
          level_mask = refl;
          valid = record {
            covered = h.valid.covered;
            in_capacity = h.valid.in_capacity;
            stored = h.valid.stored;
            all_bytes = h.valid.all_bytes;
            few_references = few;
          };
        },
      )

  module _ (sha256 : List ℕ → List ℕ) (deep : ℕ) (small : deep < 2048) (flat : AllFlat deep refs)
      (s : SliceData) (v : IsWindow s) (some_bits : prefix.data_start < prefix.data_end)
      (fits : prefix.data_end - prefix.data_start ≤ s.data_end - s.data_start)
      (short : s.data_end ≤ s.data_start + 1023) where
    abbrev n : ℕ
    n = prefix.data_end - prefix.data_start

    steps :
        (b b' : BuilderData)
        → from_slice prefix ≡ ok b
        → move_by s n ≡ ok (moved s n)
        → append_bytestring b (moved s n) ≡ ok b'
        → overwrite_prefix sha256 s prefix ≡ load_builder sha256 b'
    unfolding overwrite_prefix is_empty
    steps b b' e e' e'' = ground (
      arith,
      remaining s v,
      remaining prefix w,
      length-bits s v,
      length-bits prefix w,
      e,
      e',
      e'',
    )

    -- Where a prefix of a level 0 ordinary cell, not empty and with references that are there and
    -- not too deep, is no longer than a slice of at most 1023 bits, `overwrite_prefix` gives a slice
    -- of the same length that spells the prefix and then the rest of the old bits.
    pub overwrite_prefix-bits :
        (t : SliceData) × (overwrite_prefix sha256 s prefix ≡ ok t)
        × (bits t ≡ bits prefix ++ drop n (bits s))
        × (length (bits t) ≡ length (bits s))
        × IsWindow t
    overwrite_prefix-bits =
        let (b, e, c) = copied (omega (arith, v.ordered)) in
        let (moves, behind) = move_by-Moved s v n (omega (arith, v.ordered)) in
        let (b', e', a) =
          append_bytestring-Appended (moved s n) behind.valid b c.valid
            (omega (arith, c.length_in_bits, v.ordered)) in
        let (t, loads, l) =
          load_builder-Loads sha256 b' deep a.valid (a.cell_type ∙ c.cell_type)
            (a.level_mask ∙ c.level_mask) small
            (subst (AllFlat deep) (sym (a.references ∙ c.references)) flat) in
        let spelled = l.spells ∙ a.spells ∙ ap₂ (λ x y. x ++ y) c.spells behind.spells in
        (
          t,
          steps b b' e moves e' ∙ loads,
          spelled,
          omega (
            arith,
            ap length spelled,
            length-append (bits prefix) (drop n (bits s)),
            length-drop n (bits s),
            length-bits s v,
            length-bits prefix w,
          ),
          l.window,
        )
