-- ===== src/Dictionary/Trie/Leaf.antt =====
-- A leaf that is written is a tree of one key.
use ton_labs_types.Base.{
  ℕ, ◌+◌, ◌≤◌, ◌<◌, ◌≡◌, ◌≢◌, ◌⊎◌, inl, inr, refl, sym, ap, ◌∙◌, subst, Bool, true, false, List, [],
  ◌∷◌, ◌++◌, Option, none, some, arith, length, eq→==,
}
use ton_labs_types.Types.{Result, ok}
use ton_labs_types.Cell.CellType.{ordinary}
use ton_labs_types.Cell.Tree.{Cell}
use ton_labs_types.Builder.{BuilderData}
use ton_labs_types.Builder.Spec as Builder
use ton_labs_types.Builder.IntoCell.{AllFlat, into_cell-IsCellOf}
use ton_labs_types.Builder.Operations.Whole.{append_builder-spells}
use ton_labs_types.Slice.{SliceData, load_cell}
use ton_labs_types.Slice.Spec.{bits}
use ton_labs_types.Slice.Window.{length-bits, remaining}
use ton_labs_types.Slice.Whole.{Refers}
use ton_labs_types.Slice.Load.{Loads, loaded, load_cell-loaded, loaded-Loads}
use ton_labs_types.Dictionary.Label.Spec.{IsLabel, long_code}
use ton_labs_types.Dictionary.Label.Choice.{length-long}
use ton_labs_types.Dictionary.Label.Width.{width}
use ton_labs_types.Dictionary.Label.Shortest.{nonempty-IsShortest}
use ton_labs_types.Dictionary.Kind.{
  hashmap_e, e_make_cell_with_label_and_builder, check_key_fail, e_check_key,
}
use ton_labs_types.Dictionary.Put.{hashmap_set_with_mode, mode_bit, add_mode}
use ton_labs_types.Dictionary.Get.{hashmap_get}
use ton_labs_types.Dictionary.Trie.{Value, leaf, IsTree, Found, find, strip, at_end}
use ton_labs_types.Dictionary.Trie.Lookup.{hashmap_get-Found}
use ton_labs_types.Dictionary.Trie.Keys.{Key, full-eq}

-- The keys and the result of `strip` behind an equal bit.
same :
    (x : Bool) (l k : List Bool) {r : Option (List Bool)}
    → ((k ≡ l) × (r ≡ some [])) ⊎ ((k ≢ l) × (r ≡ none))
    → ((x ∷ k ≡ x ∷ l) × (r ≡ some [])) ⊎ ((x ∷ k ≢ x ∷ l) × (r ≡ none))
same x l k (inl (e, f)) = inl (ap (x ∷◌) e, f)
same x l k (inr (ne, f)) = inr ((λ e. ne (cc)), f)

-- A key of the length of a label is the label, or `strip` fails.
strip-cases :
    (l k : List Bool)
    → length l ≡ length k
    → ((k ≡ l) × (strip l k ≡ some [])) ⊎ ((k ≢ l) × (strip l k ≡ none))
strip-cases [] [] h = inl (refl, refl)
strip-cases [] (y ∷ k) h = absurd (omega (arith, h))
strip-cases (x ∷ l) [] h = absurd (omega (arith, h))
strip-cases (true ∷ l) (true ∷ k) h = same true l k (strip-cases l k (omega (arith, h)))
strip-cases (true ∷ l) (false ∷ k) h = inr ((λ e. cc), refl)
strip-cases (false ∷ l) (true ∷ k) h = inr ((λ e. cc), refl)
strip-cases (false ∷ l) (false ∷ k) h = same false l k (strip-cases l k (omega (arith, h)))

-- The value of a builder.
abbrev pub value_of : BuilderData → Value
value_of b = record { value_bits = Builder.bits b; references = b.references }

-- A dictionary of one key: a search finds its value, or nothing.
abbrev pub Holds : List Bool → Value → List Bool → Result (Option SliceData) → Type 0
Holds l v k r = ((k ≡ l) × Found (some v) r) ⊎ ((k ≢ l) × (r ≡ ok none))

found-Holds :
    (l : List Bool) (v : Value) (k : List Bool) (r : Result (Option SliceData))
    → ((k ≡ l) × (strip l k ≡ some [])) ⊎ ((k ≢ l) × (strip l k ≡ none))
    → Found (find (leaf l v) k) r
    → Holds l v k r
found-Holds l v k r (inl (e, s)) f = inl (e, subst (λ o. Found (at_end v o) r) s f)
found-Holds l v k r (inr (ne, s)) f = inr (ne, subst (λ o. Found (at_end v o) r) s f)

module _ (sha256 : List ℕ → List ℕ) (key : SliceData) (n : ℕ) (k : Key key n) (positive : 0 < n)
    (value : BuilderData) (v : Builder.IsValid value) (deep : ℕ) (small : deep < 2048)
    (flat : AllFlat deep value.references)
    (room : 2 + width n + n + value.length_in_bits ≤ 1023) where
  -- What `make_cell_with_label_and_builder` writes.
  record Leaf (b : BuilderData) : Type 0 where
    code : List Bool
    is_label : IsLabel (width n) (bits key) code
    spells : Builder.bits b ≡ code ++ Builder.bits value
    references : b.references ≡ value.references
    cell_type : b.cell_type ≡ ordinary
    level_mask : b.level_mask ≡ 0
    valid : Builder.IsValid b

  make-Leaf :
      (b : BuilderData) × (e_make_cell_with_label_and_builder key n true value ≡ ok b) × Leaf b
  unfolding e_make_cell_with_label_and_builder
  make-Leaf =
      let (label, code, made, w, (is, least)) =
        nonempty-IsShortest key k.window n (omega (arith, k.long, length-bits key k.window))
          (omega arith) (omega (arith, k.long, length-bits key k.window)) in
      let (b, appended, spells, refs, kind, level, valid) =
        append_builder-spells label value w.valid v
          (omega (
            arith,
            least (long_code (width n) (bits key)) (inl refl),
            length-long (width n) (bits key),
            w.length_in_bits,
            k.long,
          ))
          (omega (arith, ap length w.references, v.few_references)) in
      (
        b,
        rw (made, appended) refl,
        record {
          code = code;
          is_label = is;
          spells = spells ∙ ap (λ t. t ++ Builder.bits value) w.spells;
          references = refs ∙ ap (λ t. t ++ value.references) w.references;
          cell_type = kind ∙ w.cell_type;
          level_mask = level ∙ w.level_mask;
          valid = valid;
        },
      )

  leaf_refers :
      (b : BuilderData) (s : SliceData)
      → b.references ≡ value.references
      → Loads b s
      → Refers s value.references
  leaf_refers b s e l =
      subst (Refers s) e (record { count = l.references_count; found = l.reference })

  pub set-IsTree :
      (mode : ℕ)
      → mode_bit mode add_mode ≡ true
      → (c : Cell) × (s : SliceData) × (hashmap_set_with_mode sha256 hashmap_e value mode none n key
          ≡ ok (none, some c))
        × (load_cell c ≡ ok s)
        × IsTree s n (leaf (bits key) (value_of value))
  unfolding hashmap_set_with_mode check_key_fail e_check_key
  set-IsTree mode adds =
      let (b, made, l) = make-Leaf in
      let (c, sealed, of) =
        into_cell-IsCellOf b deep l.valid l.cell_type l.level_mask small
          (subst (AllFlat deep) (sym l.references) flat) sha256 in
      let reads = loaded-Loads deep b l.valid c of in
      (
        c,
        loaded deep b l.valid c of,
        rw
            (
              full-eq key k.window (omega (arith, k.long)),
              remaining key k.window,
              k.long,
              eq→== n n refl,
              adds,
              made,
              sealed,
            )
            refl,
        load_cell-loaded deep b l.valid c of,
        (
          record {
            window = reads.window;
            refers = leaf_refers b (loaded deep b l.valid c of) l.references reads;
            code = l.code;
            is_label = l.is_label;
            short = λ e. absurd (omega (arith, e));
            spells = reads.spells ∙ l.spells;
          },
          k.long,
        ),
      )

  -- In an empty `HashmapE` for keys of at least one bit a key without references is set, with a
  -- mode that adds, to the bits and references of a valid builder over cells of level 0 less than
  -- 2048 deep, where the long label and the bits of the value fit in a cell. Then `hashmap_get` of a
  -- key of as many bits finds this value if the bits are the same, and `None` if not.
  pub hashmap_get-hashmap_set_with_mode :
      (mode : ℕ)
      → mode_bit mode add_mode ≡ true
      → (other : SliceData) → Key other n
      → (c : Cell) × (hashmap_set_with_mode sha256 hashmap_e value mode none n key
          ≡ ok (none, some c))
        × Holds
            (bits key)
            (value_of value)
            (bits other)
            (hashmap_get sha256 hashmap_e (some c) n other)
  hashmap_get-hashmap_set_with_mode mode adds other k' =
      let (c, s, sets, loads, tree) = set-IsTree mode adds in
      (
        c,
        sets,
        found-Holds (bits key) (value_of value) (bits other) _
            (strip-cases (bits key) (bits other) (k.long ∙ sym k'.long))
            (hashmap_get-Found sha256 (leaf (bits key) (value_of value)) c s n loads tree positive
              (omega (arith, k.long, length-bits key k.window)) other k'),
      )
