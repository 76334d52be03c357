-- ===== src/Dictionary/Trie/Edges.antt =====
-- The label and the remainder of a node are read, and its references found.
use ton_labs_types.Base.{
  ℕ, zero, suc, ◌+◌, ◌≤◌, ◌≡◌, refl, sym, ap, ◌∙◌, Bool, true, false, List, ◌∷◌, ◌++◌, none, some,
  arith, length, drop, drop_all, get_elem?-drop, get_or, replicate, append_assoc,
}
use ton_labs_types.Types.{ok}
use ton_labs_types.Cell.Tree.{Cell}
use ton_labs_types.Slice.{SliceData, reference, references_from, remaining_references}
use ton_labs_types.Slice.Spec.{bits, IsWindow}
use ton_labs_types.Slice.Window.{length-bits, moved, move_by-Moved}
use ton_labs_types.Slice.SingleBit.{get_bit_opt-bit}
use ton_labs_types.Slice.Whole.{Refers}
use ton_labs_types.Slice.Prefix.{get_next_bit_opt, get_next_bit_int, past_bit, to_int}
use ton_labs_types.Dictionary.LabelReader.{
  get_label, new_reader, slice_get_label, remainder, read_up_to,
}
use ton_labs_types.Dictionary.LabelReader.Parts.{HasReferences}
use ton_labs_types.Dictionary.LabelReader.Reads.{ReadsLabel, reads_short}
use ton_labs_types.Dictionary.LabelReader.RoundTrip.{get_label-ReadsLabel}
use ton_labs_types.Dictionary.Trie.{Node}
use native.Mathlib.Decide.{ℕ_discrete}

module _ (s : SliceData) (refs : List Cell) (r : Refers s refs) where
  from-drop : (left i : ℕ) → i + left ≡ length refs → references_from s i left ≡ ok (drop i refs)
  unfolding references_from
  from-drop zero i h = ap ok (sym (drop_all i refs (omega arith)))
  from-drop (suc left) i h =
      let (x, e, d) = get_elem?-drop i refs (omega arith) in
      let (y, e', found) = r.found i (omega arith) in
      rw (found, from-drop left (i + 1) (omega arith))
        (ap ok (
          ap (λ z. z ∷ drop (i + 1) refs) (ap (λ o. elim o [ some z ↦ z | none ↦ x ]) (sym e' ∙ e))
          ∙ ap (λ k. x ∷ drop k refs) {x = i + 1} {y = suc i} (omega arith)
          ∙ sym d))

  pub refers-HasReferences : HasReferences s refs
  refers-HasReferences = rw r.count (from-drop (length refs) 0 (omega arith))

  pub moved-Refers : (k : ℕ) → Refers (moved s k) refs
  unfolding remaining_references reference
  moved-Refers k = record { count = r.count; found = r.found }

-- The first bit of a window as a number.
pub get_next_bit_int-first :
    (s : SliceData)
    → IsWindow s
    → (x : Bool) (rest : List Bool) → bits s ≡ x ∷ rest
    → (get_next_bit_int s ≡ ok (moved s 1, to_int x))
      × (bits (moved s 1) ≡ rest)
      × IsWindow (moved s 1)
unfolding get_next_bit_int get_next_bit_opt past_bit
get_next_bit_int-first s w x rest e =
    let (bit, found, spelled) =
      get_bit_opt-bit s w 0 (omega (arith, ap length e, length-bits s w)) in
    let (moves, m) = move_by-Moved s w 1 (omega (arith, ap length e, length-bits s w)) in
    (
      rw (found, moves)
          (ap (λ b. ok (moved s 1, to_int b)) (ap (λ t. get_or t 0 x) (sym spelled ∙ e))),
      m.spells ∙ ap (drop 1) e,
      m.valid,
    )

-- What the reader of a label makes of a node: the label, and a slice of what follows.
pub record Parted (s : SliceData) (label rest : List Bool) (refs : List Cell)
    (cursor key : SliceData) : Type 0 where
  pub label_bits : bits key ≡ label
  pub label_window : IsWindow key
  pub label_bare : remaining_references key ≡ 0
  pub rest_bits : bits cursor ≡ rest
  pub rest_window : IsWindow cursor
  pub refers : Refers cursor refs

module _ (sha256 : List ℕ → List ℕ) (s : SliceData) (n : ℕ) (label rest : List Bool)
    (refs : List Cell) (node : Node s n label rest refs) (below : length label ≤ n)
    (small : n ≤ 1023) where
  node-ReadsLabel : ReadsLabel s label rest (get_label sha256 (new_reader s) n)
  node-ReadsLabel = elim (ℕ_discrete n 0) [
    | yes e ↦
        reads_short sha256 s node.window refs (refers-HasReferences s refs node.refers) n label rest
          below
          (node.spells
            ∙ ap (λ c. c ++ rest) (node.short e)
            ∙ ap (false ∷◌) (append_assoc (replicate (length label) true) (false ∷ label) rest))
    | no e ↦
        get_label-ReadsLabel sha256 s node.window refs (refers-HasReferences s refs node.refers) n e
          (omega arith) label rest node.code below (omega arith) node.is_label node.spells
  ]

  pub node-Parted :
      (cursor : SliceData) × (key : SliceData) × (slice_get_label sha256 s n ≡ ok (cursor, key))
      × Parted s label rest refs cursor key
  unfolding slice_get_label remainder read_up_to
  node-Parted =
      let (k, key, reads, g) = node-ReadsLabel in
      (
        moved s k,
        key,
        rw reads refl,
        record {
          label_bits = g.label_bits;
          label_window = g.label_window;
          label_bare = g.label_references;
          rest_bits = g.behind.spells;
          rest_window = g.behind.valid;
          refers = moved-Refers s refs node.refers k;
        },
      )
