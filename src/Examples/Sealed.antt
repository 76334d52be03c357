-- ===== src/Examples/Sealed.antt =====
-- A builder of 13 bits over one cell, through a cell and a slice and back.
use ton_labs_types.Base.{ℕ, ◌≡◌, refl, List, ◌∷◌, take, arith, []}
use ton_labs_types.Types.{ok}
use ton_labs_types.Cell.LevelMask.{calc_hash_index}
use ton_labs_types.Cell.Layout as Layout
use ton_labs_types.Cell.Data as Data
use ton_labs_types.Cell.Data.{local}
use ton_labs_types.Cell.Tree.{Cell, data_cell, nil}
use ton_labs_types.Cell.Tree as Tree
use ton_labs_types.Builder.{BuilderData, into_cell, from_cell}
use ton_labs_types.Builder.Spec.{IsValid}
use ton_labs_types.Builder.IntoCell.{IsFlat, IsCellOf, into_cell-IsCellOf}
use ton_labs_types.Builder.RoundTrip.{SameContents, from_cell-into_cell}
use ton_labs_types.Slice.{SliceData}
use ton_labs_types.Slice.Transfer.{load_builder, from_slice}
use ton_labs_types.Slice.Load.{Loads, load_builder-Loads, from_slice-load_builder}
use ton_labs_types.Examples.Builders.{thirteen}

-- A hash that a run can compute: the first bytes.
abbrev pub first_bytes : List ℕ → List ℕ
first_bytes xs = take 32 xs

-- A cell of one byte with its hash and its depth.
abbrev leaf : Cell
leaf =
    data_cell
      (record { buf = local (0 ∷ 2 ∷ 0xab ∷ []); hashes_depths = (0 ∷ 2 ∷ 0xab ∷ [], 0) ∷ [] }) nil
      8 1

leaf-IsFlat : IsFlat 0 leaf
unfolding Tree.level_mask Tree.depth Tree.hash Data.depth Data.raw_hash Data.stored_hash
    Data.stored_depth Data.kept Data.cell_type Data.store_hashes Layout.cell_type
    Layout.store_hashes Layout.exotic Layout.absent calc_hash_index
leaf-IsFlat = record {
  level_mask = refl;
  depth = (0, refl, omega arith);
  hash = (0 ∷ 2 ∷ 0xab ∷ [], refl);
}

abbrev parent : BuilderData
parent = record thirteen { references = leaf ∷ [] }

parent-IsValid : IsValid parent
parent-IsValid = record {
  covered = omega arith;
  in_capacity = omega arith;
  stored = omega arith;
  all_bytes = omega arith;
  few_references = omega arith;
}

into_cell-IsCellOf_example :
    (c : Cell) × (into_cell first_bytes parent ≡ ok c) × IsCellOf 0 parent c
into_cell-IsCellOf_example =
    into_cell-IsCellOf parent 0 parent-IsValid refl refl (omega arith) (leaf-IsFlat, tt) first_bytes

from_cell-into_cell_example :
    (c : Cell) × (b' : BuilderData) × (into_cell first_bytes parent ≡ ok c)
    × (from_cell c ≡ ok b')
    × SameContents parent b'
from_cell-into_cell_example =
    from_cell-into_cell first_bytes parent 0 parent-IsValid refl refl (omega arith)
      (leaf-IsFlat, tt)

load_builder-Loads_example :
    (s : SliceData) × (load_builder first_bytes parent ≡ ok s) × Loads parent s
load_builder-Loads_example =
    load_builder-Loads first_bytes parent 0 parent-IsValid refl refl (omega arith) (leaf-IsFlat, tt)

from_slice-load_builder_example :
    (s : SliceData) × (b' : BuilderData) × (load_builder first_bytes parent ≡ ok s)
    × (from_slice s ≡ ok b')
    × SameContents parent b'
from_slice-load_builder_example =
    from_slice-load_builder first_bytes parent 0 parent-IsValid refl refl (omega arith)
      (leaf-IsFlat, tt)
