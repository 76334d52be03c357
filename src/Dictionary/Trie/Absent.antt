-- ===== src/Dictionary/Trie/Absent.antt =====
-- The removal of a key that a `HashmapE` does not have.
use ton_labs_types.Base.{
  ℕ, zero, suc, ◌+◌, ◌-◌, ◌≤◌, ◌<◌, ◌≡◌, inl, inr, refl, sym, ap, ◌∙◌, subst, Bool, true, false,
  List, [], ◌∷◌, Option, none, some, eq→==, le→ltb, if◌then◌else◌, arith, length, drop_all,
}
use ton_labs_types.Types.{Result, ok}
use ton_labs_types.Cell.Tree.{Cell}
use ton_labs_types.Slice.{SliceData, reference, load_cell, remaining_bits}
use ton_labs_types.Slice.Spec.{bits, IsWindow}
use ton_labs_types.Slice.Window.{moved, remaining}
use ton_labs_types.Slice.Prefix.{common_prefix, to_int}
use ton_labs_types.Slice.Whole.{Refers}
use ton_labs_types.Dictionary.LabelReader.{slice_get_label}
use ton_labs_types.Dictionary.Kind.{hashmap_e, e_check_key, check_key_fail}
use ton_labs_types.Dictionary.Remove.{remove_loop, remove_node, hashmap_remove}
use ton_labs_types.Dictionary.Trie.{Trie, leaf, fork, IsTree, find, at_end, branch}
use ton_labs_types.Dictionary.Trie.Edges.{node-Parted, get_next_bit_int-first}
use ton_labs_types.Dictionary.Trie.Keys.{Key, full-eq, first_child, e_is_fork-true}
use ton_labs_types.Dictionary.Trie.Prefixes.{parts, goes_on, on_branch}

no_value : {A : Type 0} (v : A) → some v ≡ none → ⊥
no_value v e = cc

either : (P : Bool → Type 0) → P true → P false → (x : Bool) → P x
either P p q true = p
either P p q false = q

module _ (sha256 : List ℕ → List ℕ) where
  abbrev removes : ℕ → Cell → ℕ → SliceData → Result (Option SliceData × Option Cell)
  removes fuel c n key = remove_loop sha256 hashmap_e fuel (some c) n key

  leaves :
      (fuel : ℕ) (c : Cell) (s cursor l key : SliceData) (n : ℕ) (q : Option SliceData)
      (u u' : SliceData)
      → load_cell c ≡ ok s
      → slice_get_label sha256 s n ≡ ok (cursor, l)
      → common_prefix l key ≡ ok (q, some u, some u')
      → removes (suc fuel) c n key ≡ ok (none, some c)
  unfolding remove_loop
  leaves fuel c s cursor l key n q u u' loads reads runs = rw (loads, reads, runs) refl

  -- A removal goes down to a child and finds nothing there.
  misses :
      (fuel : ℕ) (d : Cell) (s cursor l key key' : SliceData) (n : ℕ) (label : List Bool)
      (q : Option SliceData)
      → load_cell d ≡ ok s
      → slice_get_label sha256 s n ≡ ok (cursor, l)
      → length label < n
      → IsWindow l
      → bits l ≡ label
      → (c c' : Cell) → Refers cursor (c ∷ c' ∷ [])
      → common_prefix l key ≡ ok (q, none, some key')
      → IsWindow key'
      → (x : Bool) (tail : List Bool) → bits key' ≡ x ∷ tail
      → removes fuel (if x then c' else c) (n - suc (length label)) (moved key' 1)
        ≡ ok (none, some (if x then c' else c))
      → removes (suc fuel) d n key ≡ ok (none, some d)
  unfolding remove_loop to_int
  misses fuel d s cursor l key key' n label q loads reads below w spelled c c' r runs w' x tail e
        nothing =
      let (first, tail_bits, tail_window) = get_next_bit_int-first key' w' x tail e in
      let deeper : removes fuel (if x then c' else c) (n - (1 + remaining_bits l)) (moved key' 1)
          ≡ ok (none, some (if x then c' else c)) =
        subst
          (λ j.
            removes fuel (if x then c' else c) (n - j) (moved key' 1)
            ≡ ok (none, some (if x then c' else c)))
          (sym counts) nothing in
      let forks = e_is_fork-true cursor (c ∷ c' ∷ []) (omega arith) r in
      let found = on_side x in
      rw (loads, reads, runs)
        (ground (
          arith,
          le→ltb n (1 + remaining_bits l) (omega (arith, counts)),
          forks,
          first,
          found,
          deeper,
        ))
    where
      counts : 1 + remaining_bits l ≡ suc (length label)
      counts = omega (arith, remaining l w, ap length spelled)

      on_side : (x : Bool) → reference cursor (if x then 1 else 0) ≡ ok (if x then c' else c)
      on_side true = (first_child cursor c c' r).1
      on_side false = (first_child cursor c c' r).0

  -- Keys that are not in the tree of a cell are not removed from it.
  abbrev Misses : ℕ → ℕ → Trie → Cell → Type 0
  Misses fuel n t c =
      (key : SliceData)
      → Key key n
      → find t (bits key) ≡ none
      → removes fuel c n key ≡ ok (none, some c)

  -- The loop of `remove_node` from a cell that holds a tree without the key.
  remove_tree :
      (t : Trie) (c : Cell) (s : SliceData) (n : ℕ)
      → load_cell c ≡ ok s
      → IsTree s n t
      → n ≤ 1023
      → (fuel : ℕ) (key : SliceData) → Key key n
      → n < fuel
      → find t (bits key) ≡ none
      → removes fuel c n key ≡ ok (none, some c)
  remove_tree (leaf label v) c s n loads tree small zero key k h e = absurd (omega arith)
  remove_tree (leaf label v) c s n loads (node, whole) small (suc fuel) key k h e =
      let (cursor, l, reads, p) =
        node-Parted sha256 s n label v.value_bits v.references node (omega arith) small in
      elim (parts key n k label v.value_bits v.references s cursor l p (omega arith)) [
        | inl (q, u, u', runs, strips) ↦ leaves fuel c s cursor l key n q u u' loads reads runs
        | inr (q, runs, strips) ↦ absurd (
            no_value v (
              sym (
                ap (at_end v)
                  (strips ∙ ap some (drop_all (length label) (bits key) (omega (arith, k.long)))))
              ∙ e))
      ]
  remove_tree (fork label left right) c s n loads tree small zero key k h e = absurd (omega arith)
  remove_tree (fork label left right) d s n loads
        (c, c', node, below, (sl, opens, tree), (sr, opens', tree')) small (suc fuel) key k h e =
      let (cursor, l, reads, p) =
        node-Parted sha256 s n label [] (c ∷ c' ∷ []) node (omega arith) small in
      let in_child : (x : Bool)
          → Misses fuel (n - suc (length label)) (if x then right else left) (if x then c' else c) =
        either
          (λ x.
            Misses fuel (n - suc (length label)) (if x then right else left) (if x then c' else c))
          (λ key k e.
            remove_tree right c' sr (n - suc (length label)) opens' tree' (omega arith) fuel key k
              (omega arith) e)
          (λ key k e.
            remove_tree left c sl (n - suc (length label)) opens tree (omega arith) fuel key k
              (omega arith) e) in
      elim (parts key n k label [] (c ∷ c' ∷ []) s cursor l p (omega arith)) [
        | inl (q, u, u', runs, strips) ↦ leaves fuel d s cursor l key n q u u' loads reads runs
        | inr (q, runs, strips) ↦
            let (key', on, w, x, tail, first, strips', k', tail_bits) =
              goes_on key n k label q l runs strips below in
            misses fuel d s cursor l key key' n label q loads reads below p.label_window
              p.label_bits c c' p.refers on w x tail first
              (in_child x (moved key' 1) k' (
                ap (find (if x then right else left)) tail_bits
                ∙ sym (on_branch left right x tail)
                ∙ sym (ap (branch (find left) (find right)) strips')
                ∙ e))
      ]

  -- In a `HashmapE` whose root holds a tree for keys of 1 to 1023 bits, `hashmap_remove` of a key of
  -- so many bits without references that is not in the tree succeeds: it returns no value and leaves
  -- the root as it was.
  pub hashmap_remove-absent :
      (t : Trie) (c : Cell) (s : SliceData) (n : ℕ)
      → load_cell c ≡ ok s
      → IsTree s n t
      → 0 < n
      → n ≤ 1023
      → (key : SliceData) → Key key n
      → find t (bits key) ≡ none
      → hashmap_remove sha256 hashmap_e (some c) n key ≡ ok (none, some c)
  unfolding hashmap_remove remove_node check_key_fail e_check_key
  hashmap_remove-absent t c s n loads tree positive small key k e =
      rw
        (
          full-eq key k.window (omega (arith, k.long)),
          remaining key k.window,
          k.long,
          eq→== n n refl,
        )
        (remove_tree t c s n loads tree small (n + 1) key k (omega arith) e)
