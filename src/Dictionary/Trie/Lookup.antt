-- ===== src/Dictionary/Trie/Lookup.antt =====
-- `hashmap_get` of a `HashmapE` is the search in the tree that the root holds.
use ton_labs_types.Base.{
  ℕ, zero, suc, ◌+◌, ◌-◌, ◌≤◌, ◌<◌, ◌≡◌, inl, inr, refl, sym, ap, ap₂, ◌∙◌, subst, Bool, true,
  false, List, [], ◌∷◌, ◌++◌, Option, none, some, eq→==, if◌then◌else◌, arith, length,
  length-append, append-nil,
}
use ton_labs_types.Types.{Result, ok, ◌>>=◌}
use ton_labs_types.Cell.Tree.{Cell}
use ton_labs_types.Slice.{SliceData, reference, is_empty, load_cell}
use ton_labs_types.Slice.Spec.{bits, IsWindow}
use ton_labs_types.Slice.Window.{moved, remaining}
use ton_labs_types.Slice.Whole.{Refers}
use ton_labs_types.Slice.Prefix.{erase_prefix, to_int}
use ton_labs_types.Slice.Prefix.Erase.{StartsWith}
use ton_labs_types.Dictionary.LabelReader.{slice_get_label}
use ton_labs_types.Dictionary.LabelReader.Reads.{less-eq}
use ton_labs_types.Dictionary.Kind.{hashmap_e, e_is_leaf, e_check_key, check_key_fail}
use ton_labs_types.Dictionary.Get.{get_loop, get_end, hashmap_get}
use ton_labs_types.Dictionary.Trie.{Trie, leaf, fork, Value, IsTree, Found, find}
use ton_labs_types.Dictionary.Trie.Edges.{Parted, node-Parted, get_next_bit_int-first}
use ton_labs_types.Bits.Common.{no_bits}
use ton_labs_types.Dictionary.Trie.Keys.{
  Key, strip_starts, strip_other, empty-eq, full-eq, first_child, e_is_fork-true, behind_label,
  erases, has_bits, descends,
}

module _ (sha256 : List ℕ → List ℕ) where
  -- The step at a leaf, once the label is read.
  module _ (fuel : ℕ) (key : SliceData) (n : ℕ) (k : Key key n) (label rest : List Bool)
      (refs : List Cell) (s cursor l : SliceData) (p : Parted s label rest refs cursor l) where
    found_leaf :
        (v : Value)
        → rest ≡ v.value_bits
        → refs ≡ v.references
        → length label ≡ n
        → Found
            (find (leaf label v) (bits key))
            (get_loop sha256 hashmap_e (suc fuel) key cursor n l)
    unfolding get_loop get_end e_is_leaf
    found_leaf v e e' whole = elim (erases key n k label rest refs s cursor l p) [
      | inl (key', runs, d, more) ↦
          let none_left : length (bits key') ≡ 0 = omega (
            arith,
            k.long,
            ap length d.splits,
            length-append (bits l) (bits key'),
            ap length p.label_bits,
          ) in
          rw
            (
              strip_starts label (bits key) []
                  (d.splits ∙ ap₂ ◌++◌ p.label_bits (no_bits (bits key') none_left)),
              runs,
              empty-eq key' d.window none_left,
            )
            (cursor, refl, p.rest_bits ∙ e, p.rest_window, subst (Refers cursor) e' p.refers)
      | inr (runs, inl nothing) ↦
          rw
            (
              strip_starts label (bits key) [] (
                  nothing
                  ∙ sym (append-nil [])
                  ∙ ap (λ t. t ++ [])
                      (sym (no_bits label (omega (arith, k.long, ap length nothing))))),
              runs,
              empty-eq key k.window (ap length nothing),
            )
            (cursor, refl, p.rest_bits ∙ e, p.rest_window, subst (Refers cursor) e' p.refers)
      | inr (runs, inr other) ↦
          rw
            (
              strip_other label (bits key)
                  (subst (λ t. ¬ StartsWith t (bits key)) p.label_bits other),
              runs,
              full-eq key k.window
                  (has_bits key n k label rest refs s cursor l p (omega arith) other),
            )
            refl
    ]

  -- A node is read, and the loop goes on from it.
  abbrev enter : ℕ → SliceData → SliceData → ℕ → Result (Option SliceData)
  enter fuel key s n =
      slice_get_label sha256 s n >>= λ r. get_loop sha256 hashmap_e fuel key r.0 n r.1

  -- A round of the loop goes to the child on the side of the next bit.
  goes_down :
      (fuel : ℕ) (key cursor l key' : SliceData) (n : ℕ) (label : List Bool)
      → length label < n
      → IsWindow l
      → bits l ≡ label
      → (c c' : Cell) → Refers cursor (c ∷ c' ∷ [])
      → erase_prefix key l ≡ ok (key', true)
      → IsWindow key'
      → (x : Bool) (tail : List Bool) → bits key' ≡ x ∷ tail
      → (t : SliceData) → load_cell (if x then c' else c) ≡ ok t
      → get_loop sha256 hashmap_e (suc fuel) key cursor n l
        ≡ enter fuel (moved key' 1) t (n - suc (length label))
  unfolding get_loop to_int
  goes_down fuel key cursor l key' n label below w spelled c c' r runs w' x tail e t loads =
      let (first, tail_bits, tail_window) = get_next_bit_int-first key' w' x tail e in
      rw
        (
          runs,
          full-eq key' w' (omega (arith, ap length e)),
          e_is_fork-true cursor (c ∷ c' ∷ []) (omega arith) r,
          first,
          on_side x,
          loads,
          remaining l w,
          spelled,
          less-eq n (length label + 1) (omega arith),
        )
        (ap (enter fuel (moved key' 1) t) {x = n - (length label + 1)} (omega arith))
    where
      on_side : (x : Bool) → reference cursor (if x then 1 else 0) ≡ ok (if x then c' else c)
      on_side true = (first_child cursor c c' r).1
      on_side false = (first_child cursor c c' r).0

  -- The loop of `hashmap_get` from a slice that holds a tree, in enough rounds for the key.
  get_tree :
      (t : Trie) (s : SliceData) (n : ℕ)
      → IsTree s n t
      → n ≤ 1023
      → (fuel : ℕ) (key : SliceData) → Key key n
      → n < fuel
      → Found (find t (bits key)) (enter fuel key s n)
  get_tree (leaf label v) s n tree small zero key k h = absurd (omega arith)
  get_tree (leaf label v) s n (node, whole) small (suc fuel) key k h =
      let (cursor, l, reads, p) =
        node-Parted sha256 s n label v.value_bits v.references node (omega arith) small in
      rw reads
        (found_leaf fuel key n k label v.value_bits v.references s cursor l p v refl refl whole)
  get_tree (fork label left right) s n tree small zero key k h = absurd (omega arith)
  get_tree (fork label left right) s n (c, c', node, below, (sl, loads, tree), (sr, loads', tree'))
        small (suc fuel) key k h =
      let (cursor, l, reads, p) =
        node-Parted sha256 s n label [] (c ∷ c' ∷ []) node (omega arith) small in
      elim (descends key n k label [] (c ∷ c' ∷ []) s cursor l p below) [
        | inr (runs, more, other) ↦ rw (other, reads) (over fuel key cursor l n runs more)
        | inl (key', runs, w, bare, false, tail, e, strips, long) ↦
            let (k', tail_bits) =
              behind_label key' w bare false tail (n - suc (length label)) e long in
            rw
              (
                strips,
                reads,
                goes_down fuel key cursor l key' n label below p.label_window p.label_bits c c'
                    p.refers runs w false tail e sl loads,
              )
              (subst
                (λ b. Found (find left b) (enter fuel (moved key' 1) sl (n - suc (length label))))
                tail_bits
                (get_tree left sl (n - suc (length label)) tree (omega arith) fuel (moved key' 1) k'
                  (omega arith)))
        | inl (key', runs, w, bare, true, tail, e, strips, long) ↦
            let (k', tail_bits) =
              behind_label key' w bare true tail (n - suc (length label)) e long in
            rw
              (
                strips,
                reads,
                goes_down fuel key cursor l key' n label below p.label_window p.label_bits c c'
                    p.refers runs w true tail e sr loads',
              )
              (subst
                (λ b. Found (find right b) (enter fuel (moved key' 1) sr (n - suc (length label))))
                tail_bits
                (get_tree right sr (n - suc (length label)) tree' (omega arith) fuel (moved key' 1)
                  k' (omega arith)))
      ]
    where
      over :
          (fuel : ℕ) (key cursor l : SliceData) (n : ℕ)
          → erase_prefix key l ≡ ok (key, false)
          → is_empty key ≡ false
          → get_loop sha256 hashmap_e (suc fuel) key cursor n l ≡ ok none
      over fuel key cursor l n runs more = unfold get_loop get_end in rw (runs, more) refl

  -- In a `HashmapE` whose root holds a tree for keys of 1 to 1023 bits, `hashmap_get` of a key of so
  -- many bits without references succeeds: it returns what the search in the tree finds, the value
  -- with its bits and references, or `None`.
  pub hashmap_get-Found :
      (t : Trie) (c : Cell) (s : SliceData) (n : ℕ)
      → load_cell c ≡ ok s
      → IsTree s n t
      → 0 < n
      → n ≤ 1023
      → (key : SliceData) → Key key n
      → Found (find t (bits key)) (hashmap_get sha256 hashmap_e (some c) n key)
  unfolding hashmap_get check_key_fail e_check_key
  hashmap_get-Found t c s n loads tree positive small key k =
      rw
        (
          full-eq key k.window (omega (arith, k.long)),
          remaining key k.window,
          k.long,
          eq→== n n refl,
          loads,
        )
        (get_tree t s n tree small (n + 1) key k (omega arith))
