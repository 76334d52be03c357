-- ===== src/Builder/IntoCell.antt =====
-- `into_cell` of an ordinary builder over cells of level 0.
mod Flat
mod Packed
use ton_labs_types.Base.{
  ℕ, suc, ◌+◌, ◌-◌, ◌*◌, ◌/◌, ◌%◌, ◌≤◌, ◌<◌, ◌≡◌, refl, sym, ap, ap₂, subst, ◌∙◌, Bool, true, false,
  List, ◌∷◌, ◌++◌, arith, length, take, take-take, none, get_elem?, length-append, length-take,
  length-replicate, replicate, take-append_eq, [],
}
use ton_labs_types.Types.{ok, ok_or, exception, cell_underflow}
use ton_labs_types.Bits.{bytes_bits, AllBytes}
use ton_labs_types.Tag.{find_tag, append_tag}
use ton_labs_types.Tag.RoundTrip.{append_tag-bits, append_tag-AllBytes, find_tag-append_tag}
use ton_labs_types.Cell.LevelMask.{calc_hash_index}
use ton_labs_types.Cell.CellType.{ordinary}
use ton_labs_types.Cell.Layout.Packed.{packed}
use ton_labs_types.Cell.Layout.Build.{bytes_for}
use ton_labs_types.Cell.Data as Data
use ton_labs_types.Cell.Tree.{Cell, data_cell, of_list, to_list}
use ton_labs_types.Cell.Tree as Tree
use ton_labs_types.Cell.Finalize.{construct_cell, finalize}
use ton_labs_types.Builder.{BuilderData, final_mask, into_cell, with_max_depth}
use ton_labs_types.Builder as Builder
use ton_labs_types.Builder.Spec.{bits, IsValid}
use ton_labs_types.Bits.Laws.{length-bytes_bits}
use ton_labs_types.Bits.Cut.{take-bytes_bits_whole, AllBytes-take}
pub use Flat.{IsFlat, AllFlat}
use Flat.{or_masks-flat, add_depths-flat, add_hashes-flat}
use Packed.{
  cell_data_of, built, has_mask, has_type, has_bits, has_data, has_no_hashes, first_hash,
  constructed,
}

abbrev pub cell_bits : Cell → List Bool
cell_bits c = take (Tree.bit_length c) (bytes_bits (Tree.data_bytes c))

-- The cell of a builder: its bits, and nothing behind them but the tag; its references.
pub record IsCellOf (deep : ℕ) (b : BuilderData) (c : Cell) : Type 0 where
  pub bit_length : Tree.bit_length c ≡ b.length_in_bits
  pub spells : cell_bits c ≡ bits b
  pub covered : b.length_in_bits ≤ 8 * length (Tree.data_bytes c)
  pub all_bytes : AllBytes (Tree.data_bytes c)
  pub cell_type : Tree.cell_type c ≡ ordinary
  pub references_count : Tree.references_count c ≡ length b.references
  pub reference :
      (i : ℕ) → Tree.reference c i ≡ ok_or (get_elem? b.references i) (exception cell_underflow)
  pub flat : IsFlat (suc deep) c

to_list-of_list : (cs : List Cell) → to_list (of_list cs) ≡ cs
to_list-of_list [] = refl
to_list-of_list (c ∷ cs) = ap (c ∷◌) (to_list-of_list cs)

length-append_tag :
    (xs : List ℕ) (n : ℕ) → AllBytes xs → n ≤ 8 * length xs → length (append_tag xs n) ≡ n / 8 + 1
length-append_tag xs n a h = omega (
  arith,
  ap length (append_tag-bits xs n a h),
  length-bytes_bits (append_tag xs n),
  length-append (take n (bytes_bits xs)) (true ∷ replicate (7 - n % 8) false),
  length-replicate (7 - n % 8) false,
  length-take n (bytes_bits xs),
  length-bytes_bits xs,
)

module _ (b : BuilderData) (deep : ℕ) (v : IsValid b) (kind : b.cell_type ≡ ordinary)
    (level : b.level_mask ≡ 0) (small : deep < 2048) (flat : AllFlat deep b.references) where
  abbrev n : ℕ
  n = b.length_in_bits

  abbrev refs : ℕ
  refs = length b.references

  abbrev tagged : List ℕ
  tagged = append_tag b.bytes n

  tag : find_tag tagged ≡ n
  tag = find_tag-append_tag b.bytes n v.all_bytes v.covered

  long : length tagged ≡ n / 8 + 1
  long = length-append_tag b.bytes n v.all_bytes v.covered

  few : refs < 5
  few = omega (arith, v.few_references)

  abbrev sealed : List ℕ → ℕ → ℕ → ℕ → Cell
  sealed hash depth total count =
      data_cell (cell_data_of refs tagged n ((hash, depth) ∷ [])) (of_list b.references) total count

  module _ (hash : List ℕ) (depth total count : ℕ) where
    abbrev kept : List (List ℕ × ℕ)
    kept = (hash, depth) ∷ []

    data_bytes-sealed : Tree.data_bytes (sealed hash depth total count) ≡ take (bytes_for n) tagged
    unfolding Tree.data_bytes
    data_bytes-sealed = has_data tagged n refs few v.in_capacity tag long kept

    bit_length-sealed : Tree.bit_length (sealed hash depth total count) ≡ n
    unfolding Tree.bit_length
    bit_length-sealed = has_bits tagged n refs few v.in_capacity tag long kept

    -- The tag lies behind the bits of the cell.
    sealed-bits : take n (bytes_bits (take (bytes_for n) tagged)) ≡ bits b
    sealed-bits =
        ap (take n) (sym (take-bytes_bits_whole (bytes_for n) tagged (ground (arith, long))))
        ∙ take-take n (8 * bytes_for n) (bytes_bits tagged) (ground arith)
        ∙ ap (take n) (append_tag-bits b.bytes n v.all_bytes v.covered)
        ∙ take-append_eq n (take n (bytes_bits b.bytes)) (true ∷ replicate (7 - n % 8) false) (
            omega (arith, length-take n (bytes_bits b.bytes), length-bytes_bits b.bytes, v.covered))

    cell_bits-sealed : cell_bits (sealed hash depth total count) ≡ bits b
    cell_bits-sealed =
        ap₂ (λ k xs. take k (bytes_bits xs)) bit_length-sealed data_bytes-sealed ∙ sealed-bits

    depth-sealed : Tree.depth (sealed hash depth total count) 0 ≡ ok depth
    unfolding Tree.depth Data.depth Data.stored_depth Data.kept calc_hash_index
    depth-sealed =
        rw
          (
            has_type tagged n refs few v.in_capacity tag long kept,
            has_mask tagged n refs few v.in_capacity tag long kept,
            has_no_hashes tagged n refs few v.in_capacity tag long kept,
          )
          refl

    hash-sealed : Tree.hash (sealed hash depth total count) 0 ≡ ok hash
    unfolding Tree.hash Data.raw_hash Data.stored_hash Data.kept calc_hash_index
    hash-sealed =
        rw
          (
            has_type tagged n refs few v.in_capacity tag long kept,
            has_mask tagged n refs few v.in_capacity tag long kept,
            has_no_hashes tagged n refs few v.in_capacity tag long kept,
          )
          refl

    level_mask-sealed : Tree.level_mask (sealed hash depth total count) ≡ 0
    unfolding Tree.level_mask
    level_mask-sealed = has_mask tagged n refs few v.in_capacity tag long kept

    cell_type-sealed : Tree.cell_type (sealed hash depth total count) ≡ ordinary
    unfolding Tree.cell_type
    cell_type-sealed = has_type tagged n refs few v.in_capacity tag long kept

    reference-sealed :
        (i : ℕ)
        → Tree.reference (sealed hash depth total count) i
          ≡ ok_or (get_elem? b.references i) (exception cell_underflow)
    unfolding Tree.reference
    reference-sealed i =
        ap (λ cs. ok_or (get_elem? cs i) (exception cell_underflow)) (to_list-of_list b.references)

    sealed-IsCellOf : depth ≤ suc deep → IsCellOf deep b (sealed hash depth total count)
    unfolding Tree.references_count
    sealed-IsCellOf low = record {
      bit_length = bit_length-sealed;
      spells = cell_bits-sealed;
      covered = ground (arith, ap length data_bytes-sealed, length-take (bytes_for n) tagged, long);
      all_bytes = subst AllBytes (sym data_bytes-sealed) (
          AllBytes-take (bytes_for n) tagged (append_tag-AllBytes b.bytes n v.all_bytes v.covered));
      cell_type = cell_type-sealed;
      references_count = ap length (to_list-of_list b.references);
      reference = reference-sealed;
      flat = record {
        level_mask = level_mask-sealed;
        depth = (depth, depth-sealed, low);
        hash = (hash, hash-sealed);
      };
    }

  final_mask-flat : final_mask b ≡ 0
  unfolding final_mask
  final_mask-flat = rw (kind, level) (or_masks-flat deep b.references flat)

  into_cell-eq :
      (sha256 : List ℕ → List ℕ) (c : Cell)
      → construct_cell sha256 2048 b.references (cell_data_of refs tagged n []) ≡ ok c
      → into_cell sha256 b ≡ ok c
  unfolding into_cell Builder.finalize with_max_depth
  into_cell-eq sha256 c e =
      rw
        (
          final_mask-flat,
          kind,
          ap (λ r. Data.with_params ordinary tagged 0 r false none none) {x = refs % 256} {y = refs}
              (omega (arith, few)),
          built tagged n refs few v.in_capacity tag long,
        )
        e

  -- A valid ordinary builder of level 0 over cells of level 0, each of a depth of at most `deep`,
  -- below 2048, makes a cell with its bits and its references, whatever SHA-256 is. The cell is
  -- again of level 0, its depth is at most one more, and its hash is there.
  pub into_cell-IsCellOf :
      (sha256 : List ℕ → List ℕ) → (c : Cell) × (into_cell sha256 b ≡ ok c) × IsCellOf deep b c
  into_cell-IsCellOf sha256 =
      let (depth, ds, e, low) = add_depths-flat deep 0 b.references small (omega arith) flat in
      let (hs, e') = add_hashes-flat deep b.references flat in
      let hash = sha256 (packed 0 refs tagged n ++ (ds ++ hs)) in
      let first =
        first_hash tagged n refs few v.in_capacity tag long sha256 deep b.references refl small flat
          ds hs depth e e' in
      let made =
        constructed tagged n refs few v.in_capacity tag long sha256 deep b.references refl small
          flat hash depth first in
      (_, into_cell-eq sha256 _ made, sealed-IsCellOf hash depth _ _ low)
