-- ===== src/Slice/Load.antt =====
-- A builder is read back through a slice: `load_builder` and `from_slice`.
use ton_labs_types.Base.{
  ℕ, zero, suc, ◌+◌, ◌-◌, ◌<◌, ◌≡◌, refl, sym, ap, ◌∙◌, List, ◌∷◌, arith, length, take, drop,
  get_elem?, get_elem?-drop, drop_all, some,
}
use ton_labs_types.Types.{ok}
use ton_labs_types.Bits.{bytes_bits}
use ton_labs_types.Cell.CellType.{ordinary}
use ton_labs_types.Cell.Tree.{Cell}
use ton_labs_types.Cell.Tree as Tree
use ton_labs_types.Builder.{BuilderData}
use ton_labs_types.Builder.Spec as Builder
use ton_labs_types.Builder.IntoCell.{IsCellOf, AllFlat, into_cell-IsCellOf}
use ton_labs_types.Builder.RoundTrip.{SameContents}
use ton_labs_types.Slice.{SliceData, load_cell, reference, references_from, remaining_references}
use ton_labs_types.Slice.Spec.{bits, IsWindow}
use ton_labs_types.Slice.Transfer.{load_builder, from_slice}
use ton_labs_types.Slice.Window.{length-bits}
use ton_labs_types.Slice.Remaining.{remaining_data-Holds}

-- The window on a whole cell without an offset.
abbrev pub whole : Cell → ℕ → ℕ → SliceData
whole c n refs = record {
  cell = c;
  data_start = 0;
  data_end = n;
  references_start = 0;
  references_end = refs;
}

-- What a slice made of a builder stands for.
pub record Loads (b : BuilderData) (s : SliceData) : Type 0 where
  pub window : IsWindow s
  pub spells : bits s ≡ Builder.bits b
  pub references_count : remaining_references s ≡ length b.references
  pub reference :
      (i : ℕ)
      → i < length b.references
      → (c : Cell) × (get_elem? b.references i ≡ some c) × (reference s i ≡ ok c)

module _ (deep : ℕ) (b : BuilderData) (v : Builder.IsValid b) (c : Cell)
    (of : IsCellOf deep b c) where
  abbrev pub loaded : SliceData
  loaded = whole c b.length_in_bits (length b.references)

  pub load_cell-loaded : load_cell c ≡ ok loaded
  unfolding load_cell Tree.is_pruned
  load_cell-loaded = rw (of.cell_type, of.bit_length, of.references_count) refl

  reference-loaded :
      (i : ℕ) (x : Cell)
      → i < length b.references
      → get_elem? b.references i ≡ some x
      → reference loaded i ≡ ok x
  unfolding reference
  reference-loaded i x h e = ground (arith, of.reference i, e)

  pub loaded-Loads : Loads b loaded
  unfolding remaining_references reference
  loaded-Loads = record {
    window = record { ordered = omega arith; inside = of.covered; all_bytes = of.all_bytes };
    spells =
        ap (λ k. take k (bytes_bits (Tree.data_bytes c))) {x = b.length_in_bits - 0}
          {y = Tree.bit_length c} (omega (arith, of.bit_length))
        ∙ of.spells;
    references_count = ground arith;
    reference =
        λ i h. let (x, e, d) = get_elem?-drop i b.references h in (x, e, reference-loaded i x h e);
  }

  references_from-drop :
      (left i : ℕ)
      → i + left ≡ length b.references
      → references_from loaded i left ≡ ok (drop i b.references)
  unfolding references_from
  references_from-drop zero i h = ap ok (sym (drop_all i b.references (omega arith)))
  references_from-drop (suc left) i h =
      let (x, e, d) = get_elem?-drop i b.references (omega arith) in
      rw (reference-loaded i x (omega arith) e, references_from-drop left (i + 1) (omega arith))
        (ap ok (ap (λ k. x ∷ drop k b.references) {x = i + 1} {y = suc i} (omega arith) ∙ sym d))

  references_from-loaded : references_from loaded 0 (remaining_references loaded) ≡ ok b.references
  references_from-loaded =
      rw loaded-Loads.references_count (references_from-drop (length b.references) 0 (omega arith))

  from_slice-SameContents :
      b.cell_type ≡ ordinary
      → b.level_mask ≡ 0
      → (b' : BuilderData) × (from_slice loaded ≡ ok b') × SameContents b b'
  unfolding from_slice
  from_slice-SameContents kind level =
      let (raw, e, r) =
        remaining_data-Holds loaded loaded-Loads.window (omega (arith, v.in_capacity)) in
      (
        record raw { references = b.references; cell_type = ordinary; level_mask = 0 },
        rw (references_from-loaded, e, of.cell_type, of.flat.level_mask) refl,
        record {
          length_in_bits = r.length_in_bits ∙ length-bits loaded loaded-Loads.window ∙ omega arith;
          spells = r.spells ∙ loaded-Loads.spells;
          references = refl;
          cell_type = sym kind;
          level_mask = sym level;
          valid = record {
            covered = r.valid.covered;
            in_capacity = r.valid.in_capacity;
            stored = r.valid.stored;
            all_bytes = r.valid.all_bytes;
            few_references = v.few_references;
          };
        },
      )

module _ (sha256 : List ℕ → List ℕ) (b : BuilderData) (deep : ℕ) (v : Builder.IsValid b)
    (kind : b.cell_type ≡ ordinary) (level : b.level_mask ≡ 0) (small : deep < 2048)
    (flat : AllFlat deep b.references) where
  -- Of a valid ordinary builder of level 0 over cells of level 0 less than 2048 deep,
  -- `load_builder` makes a slice with the bits and the references of the builder.
  pub load_builder-Loads : (s : SliceData) × (load_builder sha256 b ≡ ok s) × Loads b s
  unfolding load_builder
  load_builder-Loads =
      let (c, e, of) = into_cell-IsCellOf b deep v kind level small flat sha256 in
      (
        loaded deep b v c of,
        rw (e, load_cell-loaded deep b v c of) refl,
        loaded-Loads deep b v c of,
      )

  -- Of a valid ordinary builder of level 0 over cells of level 0 less than 2048 deep,
  -- `load_builder` makes a slice, and `from_slice` of that slice is a valid builder of the same bits,
  -- references, type and level mask.
  pub from_slice-load_builder :
      (s : SliceData) × (b' : BuilderData) × (load_builder sha256 b ≡ ok s)
      × (from_slice s ≡ ok b')
      × SameContents b b'
  unfolding load_builder
  from_slice-load_builder =
      let (c, e, of) = into_cell-IsCellOf b deep v kind level small flat sha256 in
      let (b', e', same) = from_slice-SameContents deep b v c of kind level in
      (loaded deep b v c of, b', rw (e, load_cell-loaded deep b v c of) refl, e', same)
