-- ===== src/Builder/RoundTrip.antt =====
-- A builder is read back from its cell: `from_cell`.
use ton_labs_types.Base.{
  ℕ, zero, suc, ◌+◌, ◌<◌, ◌≡◌, refl, sym, ap, ◌∙◌, List, ◌∷◌, arith, length, take, drop, get_elem?,
  get_elem?-drop, drop_all,
}
use ton_labs_types.Types.{ok, ok_or, exception, cell_underflow}
use ton_labs_types.Bits.{bytes_bits}
use ton_labs_types.Cell.CellType.{ordinary}
use ton_labs_types.Cell.Tree.{Cell}
use ton_labs_types.Cell.Tree as Tree
use ton_labs_types.Builder.{BuilderData, from_cell, into_cell}
use ton_labs_types.Builder.Spec.{bits, IsValid}
use ton_labs_types.Builder.Operations.Whole.{with_raw-IsRaw}
use ton_labs_types.Builder.IntoCell.{IsCellOf, AllFlat, into_cell-IsCellOf}

module _ (refs : List Cell) (c : Cell)
    (found : (i : ℕ)
      → Tree.reference c i ≡ ok_or (get_elem? refs i) (exception cell_underflow)) where
  clone_from-drop :
      (left i : ℕ) → i + left ≡ length refs → Tree.clone_from c i left ≡ ok (drop i refs)
  unfolding Tree.clone_from
  clone_from-drop zero i h = ap ok (sym (drop_all i refs (omega arith)))
  clone_from-drop (suc left) i h =
      let (x, e, d) = get_elem?-drop i refs (omega arith) in
      let next' = clone_from-drop left (i + 1) (omega arith) in
      rw (found i, e, next')
        (ap ok (ap (λ k. x ∷ drop k refs) {x = i + 1} {y = suc i} (omega arith) ∙ sym d))

-- What a builder has again after its way through a cell: its bits, its references and its kind.
pub record SameContents (b b' : BuilderData) : Type 0 where
  pub length_in_bits : b'.length_in_bits ≡ b.length_in_bits
  pub spells : bits b' ≡ bits b
  pub references : b'.references ≡ b.references
  pub cell_type : b'.cell_type ≡ b.cell_type
  pub level_mask : b'.level_mask ≡ b.level_mask
  pub valid : IsValid b'

module _ (deep : ℕ) (b : BuilderData) (v : IsValid b) (c : Cell) (of : IsCellOf deep b c) where
  clone_references-eq : Tree.clone_references c ≡ ok b.references
  unfolding Tree.clone_references
  clone_references-eq =
      rw of.references_count
        (clone_from-drop b.references c of.reference (length b.references) 0 (omega arith))

  from_cell-SameContents :
      b.cell_type ≡ ordinary
      → b.level_mask ≡ 0
      → (b' : BuilderData) × (from_cell c ≡ ok b') × SameContents b b'
  unfolding from_cell
  from_cell-SameContents kind level =
      let (raw, e, r) =
        with_raw-IsRaw (Tree.data_bytes c) b.length_in_bits of.all_bytes of.covered v.in_capacity in
      (
        record raw { references = b.references; cell_type = ordinary; level_mask = 0 },
        rw (of.bit_length, e, clone_references-eq, of.cell_type, of.flat.level_mask) refl,
        record {
          length_in_bits = r.length_in_bits;
          spells =
              r.spells
              ∙ ap (λ k. take k (bytes_bits (Tree.data_bytes c))) (sym of.bit_length)
              ∙ of.spells;
          references = refl;
          cell_type = sym kind;
          level_mask = sym level;
          valid = record {
            covered = r.valid.covered;
            in_capacity = r.valid.in_capacity;
            stored = r.valid.stored;
            all_bytes = r.valid.all_bytes;
            few_references = v.few_references;
          };
        },
      )

-- Of a valid ordinary builder of level 0 over cells of level 0 less than 2048 deep,
-- `into_cell` makes a cell, and `from_cell` of that cell is a valid builder of the same bits,
-- references, type and level mask.
pub from_cell-into_cell :
    (sha256 : List ℕ → List ℕ) (b : BuilderData) (deep : ℕ)
    → IsValid b
    → b.cell_type ≡ ordinary
    → b.level_mask ≡ 0
    → deep < 2048
    → AllFlat deep b.references
    → (c : Cell) × (b' : BuilderData) × (into_cell sha256 b ≡ ok c)
      × (from_cell c ≡ ok b')
      × SameContents b b'
from_cell-into_cell sha256 b deep v kind level small flat =
    let (c, e, of) = into_cell-IsCellOf b deep v kind level small flat sha256 in
    let (b', e', same) = from_cell-SameContents deep b v c of kind level in (c, b', e, e', same)
