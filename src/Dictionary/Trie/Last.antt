-- ===== src/Dictionary/Trie/Last.antt =====
-- The removal of the last key of a `HashmapE`.
use ton_labs_types.Base.{
  ℕ, ◌+◌, ◌≤◌, ◌<◌, ◌≡◌, inl, inr, refl, sym, ap, ◌∙◌, suc, List, subst, true, some, none, Option,
  [], append-nil, eq→==, arith, length,
}
use ton_labs_types.Types.{ok}
use ton_labs_types.Cell.Tree.{Cell}
use ton_labs_types.Builder.{BuilderData}
use ton_labs_types.Builder.Spec as Builder
use ton_labs_types.Builder.IntoCell.{AllFlat}
use ton_labs_types.Dictionary.Label.Width.{width}
use ton_labs_types.Dictionary.Put.{hashmap_set_with_mode, mode_bit, add_mode}
use ton_labs_types.Dictionary.Trie.Leaf.{value_of, set-IsTree}
use ton_labs_types.Slice.{SliceData, load_cell}
use ton_labs_types.Slice.Spec.{bits, IsWindow}
use ton_labs_types.Slice.Window.{remaining}
use ton_labs_types.Slice.Whole.{Refers}
use ton_labs_types.Slice.Prefix.{common_prefix}
use ton_labs_types.Dictionary.LabelReader.{slice_get_label}
use ton_labs_types.Dictionary.Kind.{hashmap_e, e_is_leaf, e_check_key, check_key_fail}
use ton_labs_types.Dictionary.Remove.{remove_loop, remove_node, hashmap_remove}
use ton_labs_types.Dictionary.Trie.{Value, leaf, IsTree, strip}
use ton_labs_types.Dictionary.Trie.Edges.{node-Parted}
use ton_labs_types.Dictionary.Trie.Keys.{Key, full-eq, strip_starts}
use ton_labs_types.Dictionary.Trie.Prefixes.{parts, behind_none}

module _ (sha256 : List ℕ → List ℕ) (v : Value) (c : Cell) (s : SliceData) (n : ℕ) (key : SliceData)
    (k : Key key n) where
  takes :
      (cursor l : SliceData) (q : Option SliceData) (fuel : ℕ)
      → load_cell c ≡ ok s
      → slice_get_label sha256 s n ≡ ok (cursor, l)
      → common_prefix l key ≡ ok (q, none, none)
      → remove_loop sha256 hashmap_e (suc fuel) (some c) n key ≡ ok (some cursor, none)
  unfolding remove_loop e_is_leaf
  takes cursor l q fuel loads reads runs = rw (loads, reads, runs) refl

  removed :
      load_cell c ≡ ok s
      → IsTree s n (leaf (bits key) v)
      → n ≤ 1023
      → (cursor : SliceData) × ((fuel : ℕ)
          → remove_loop sha256 hashmap_e (suc fuel) (some c) n key ≡ ok (some cursor, none))
        × (bits cursor ≡ v.value_bits)
        × IsWindow cursor
        × Refers cursor v.references
  removed loads (node, whole) small =
      let (cursor, l, reads, p) =
        node-Parted sha256 s n (bits key) v.value_bits v.references node (omega arith) small in
      elim (parts key n k (bits key) v.value_bits v.references s cursor l p (omega arith)) [
        | inl (q, u, u', runs, strips) ↦ absurd (starts strips)
        | inr (q, runs, strips) ↦ (
          cursor,
          λ fuel. takes cursor l q fuel loads reads (
              runs ∙ ap (λ o. ok (q, none, o)) (behind_none key (length (bits key)) (omega arith))),
          p.rest_bits,
          p.rest_window,
          p.refers,
        )
      ]
    where
      starts : strip (bits key) (bits key) ≡ none → ⊥
      starts e =
          let f : some [] ≡ none =
            sym (strip_starts (bits key) (bits key) [] (sym (append-nil (bits key)))) ∙ e in
          cc

  -- The last key is removed, and no root is left.
  hashmap_remove-last :
      load_cell c ≡ ok s
      → IsTree s n (leaf (bits key) v)
      → 0 < n
      → n ≤ 1023
      → (cursor : SliceData) × (hashmap_remove sha256 hashmap_e (some c) n key
          ≡ ok (some cursor, none))
        × (bits cursor ≡ v.value_bits)
        × IsWindow cursor
        × Refers cursor v.references
  unfolding hashmap_remove remove_node check_key_fail e_check_key
  hashmap_remove-last loads tree positive small =
      let (cursor, runs, spells, window, refers) = removed loads tree small in
      (
        cursor,
        rw
            (
              full-eq key k.window (omega (arith, k.long)),
              remaining key k.window,
              k.long,
              eq→== n n refl,
            )
            (subst (λ j. remove_loop sha256 hashmap_e j (some c) n key ≡ ok (some cursor, none))
              {x = suc n} {y = n + 1} (omega arith) (runs n)),
        spells,
        window,
        refers,
      )

module _ (sha256 : List ℕ → List ℕ) (key : SliceData) (n : ℕ) (k : Key key n) (positive : 0 < n)
    (value : BuilderData) (v : Builder.IsValid value) (deep : ℕ) (small : deep < 2048)
    (flat : AllFlat deep value.references)
    (room : 2 + width n + n + value.length_in_bits ≤ 1023) where
  -- In an empty `HashmapE` for keys of at least one bit a key without references is set, with a
  -- mode that adds, to the bits and references of a valid builder over cells of level 0 less than
  -- 2048 deep, where the long label and the bits of the value fit in a cell. Then `hashmap_remove`
  -- of the key gives the value back, with its bits and references, and leaves no root.
  pub hashmap_remove-hashmap_set_with_mode :
      (mode : ℕ)
      → mode_bit mode add_mode ≡ true
      → (c : Cell) × (cursor : SliceData) × (hashmap_set_with_mode sha256 hashmap_e value mode none
            n key
          ≡ ok (none, some c))
        × (hashmap_remove sha256 hashmap_e (some c) n key ≡ ok (some cursor, none))
        × (bits cursor ≡ Builder.bits value)
        × IsWindow cursor
        × Refers cursor value.references
  hashmap_remove-hashmap_set_with_mode mode adds =
      let (c, s, sets, loads, tree) =
        set-IsTree sha256 key n k positive value v deep small flat room mode adds in
      let (cursor, removes, spells, window, refers) =
        hashmap_remove-last sha256 (value_of value) c s n key k loads tree positive (omega arith) in
      (c, cursor, sets, removes, spells, window, refers)
