-- ===== src/Slice/ReadBack.antt =====
-- A number that is appended to a builder is read back from the slice of its cell.
use ton_labs_types.Base.{
  ℕ, ◌+◌, ◌%◌, ◌^◌, ◌≤◌, ◌<◌, ◌≡◌, ◌≢◌, sym, ap, ◌∙◌, subst, List, [], arith, length, drop, ◌++◌,
  length-append, length-take, drop-append_eq, append-nil,
}
use ton_labs_types.Types.{ok}
use ton_labs_types.Bits.{to_bits, bytes_bits}
use ton_labs_types.Bits.Laws.{length-bytes_bits}
use ton_labs_types.Cell.CellType.{ordinary}
use ton_labs_types.Builder.{BuilderData}
use ton_labs_types.Builder.Spec as Builder
use ton_labs_types.Builder.IntoCell.{AllFlat}
use ton_labs_types.Builder.Operations.{append_bits}
use ton_labs_types.Builder.Operations.Spells.{append_bits-Appended}
use ton_labs_types.Slice.{SliceData, move_by}
use ton_labs_types.Slice.Spec.{bits}
use ton_labs_types.Slice.Reading.{get_next_int}
use ton_labs_types.Slice.Transfer.{load_builder}
use ton_labs_types.Slice.Window.{length-bits, moved, move_by-Moved}
use ton_labs_types.Slice.Load.{load_builder-Loads}
use ton_labs_types.Slice.RoundTrip.{get_next_int-value}

bits_count : (b : BuilderData) → Builder.IsValid b → length (Builder.bits b) ≡ b.length_in_bits
bits_count b v =
    length-take b.length_in_bits (bytes_bits b.bytes)
    ∙ omega (arith, length-bytes_bits b.bytes, v.covered)

module _ (sha256 : List ℕ → List ℕ) (b : BuilderData) (deep : ℕ) (v : Builder.IsValid b)
    (kind : b.cell_type ≡ ordinary) (level : b.level_mask ≡ 0) (small : deep < 2048)
    (flat : AllFlat deep b.references) where
  -- A number of 1 to 63 bits is appended to a valid ordinary builder of level 0 that has room for it,
  -- over cells of level 0 less than 2048 deep. From the slice that is loaded of the cell of the
  -- builder, moved past the bits that were there before, `get_next_int` reads the value modulo 2 ^ n,
  -- and no bits are left.
  pub get_next_int-append_bits :
      (value n : ℕ)
      → n ≢ 0
      → n < 64
      → b.length_in_bits + n ≤ 1023
      → (b' : BuilderData) × (s : SliceData) × (s' : SliceData) × (s'' : SliceData) × (append_bits b
            value n
          ≡ ok b')
        × (load_builder sha256 b' ≡ ok s)
        × (move_by s b.length_in_bits ≡ ok s')
        × (get_next_int s' n ≡ ok (s'', value % 2 ^ n))
        × (bits s'' ≡ [])
  get_next_int-append_bits value n ne few room =
      let (b', appends, a) = append_bits-Appended b v value n few room in
      let (s, loads, l) =
        load_builder-Loads sha256 b' deep a.valid (a.cell_type ∙ kind) (a.level_mask ∙ level) small
          (subst (AllFlat deep) (sym a.references) flat) in
      let spelled : bits s ≡ Builder.bits b ++ to_bits n value = l.spells ∙ a.spells in
      let (moves, m) = move_by-Moved s l.window b.length_in_bits (
        omega (
          arith,
          length-bits s l.window,
          ap length spelled,
          length-append (Builder.bits b) (to_bits n value),
          bits_count b v,
        )) in
      let behind : bits (moved s b.length_in_bits) ≡ to_bits n value ++ [] =
        m.spells
        ∙ ap (drop b.length_in_bits) spelled
        ∙ drop-append_eq b.length_in_bits (Builder.bits b) (to_bits n value) (bits_count b v)
        ∙ sym (append-nil (to_bits n value)) in
      let (s'', reads, w, rest) =
        get_next_int-value (moved s b.length_in_bits) value n [] m.valid behind ne (omega arith) in
      (b', s, moved s b.length_in_bits, s'', appends, loads, moves, reads, rest)
