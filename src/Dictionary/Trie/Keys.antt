-- ===== src/Dictionary/Trie/Keys.antt =====
-- Keys, and what a label leaves of them.
use ton_labs_types.Base.{
  ℕ, suc, ◌-◌, ◌≤◌, ◌<◌, ◌≡◌, ◌⊎◌, inl, inr, refl, sym, ap, ap₂, ◌∙◌, subst, Bool, true, false,
  List, [], ◌∷◌, ◌++◌, none, some, ltb, Bool-cases, arith, length, length-append,
}
use ton_labs_types.Types.{ok}
use ton_labs_types.Cell.Tree.{Cell}
use ton_labs_types.Slice.{SliceData, remaining_references, references_from, is_empty}
use ton_labs_types.Slice.Spec.{bits, IsWindow}
use ton_labs_types.Slice.Window.{length-bits}
use ton_labs_types.Slice.Prefix.{erase_prefix}
use ton_labs_types.Slice.Prefix.Erase.{StartsWith, Erases, erase_prefix-Erases}
use ton_labs_types.Dictionary.LabelReader.Parts.{HasReferences}
use ton_labs_types.Dictionary.Trie.{strip}
use ton_labs_types.Dictionary.Trie.Edges.{Parted}
use ton_labs_types.Bits.Common.{no_bits}
use ton_labs_types.Slice.{reference}
use ton_labs_types.Slice.Whole.{Refers}
use ton_labs_types.Slice.Window.{moved}
use ton_labs_types.Dictionary.Kind.{e_is_fork}
use ton_labs_types.Dictionary.Trie.Edges.{get_next_bit_int-first}

-- `strip` takes a label off a key that starts with it.
pub strip_starts : (label key rest : List Bool) → key ≡ label ++ rest → strip label key ≡ some rest
strip_starts label key rest e = ap (strip label) e ∙ strip-append label rest
  where
    strip-append : (label rest : List Bool) → strip label (label ++ rest) ≡ some rest
    strip-append [] rest = refl
    strip-append (true ∷ label) rest = strip-append label rest
    strip-append (false ∷ label) rest = strip-append label rest

pub strip_other : (label key : List Bool) → ¬ StartsWith label key → strip label key ≡ none
strip_other [] key h = absurd (h (key, refl))
strip_other (x ∷ label) [] h = refl
strip_other (true ∷ label) (true ∷ key) h = strip_other label key (λ s. h (s.0, ap (true ∷◌) s.1))
strip_other (true ∷ label) (false ∷ key) h = refl
strip_other (false ∷ label) (true ∷ key) h = refl
strip_other (false ∷ label) (false ∷ key) h =
    strip_other label key (λ s. h (s.0, ap (false ∷◌) s.1))

pub first_of : (l : List Bool) → 0 < length l → (x : Bool) × (tail : List Bool) × (l ≡ x ∷ tail)
first_of [] h = absurd (omega arith)
first_of (x ∷ l) h = (x, l, refl)

-- A key: a window without references.
pub record Key (s : SliceData) (n : ℕ) : Type 0 where
  pub window : IsWindow s
  pub bare : remaining_references s ≡ 0
  pub long : length (bits s) ≡ n

pub no_references : (s : SliceData) → remaining_references s ≡ 0 → HasReferences s []
unfolding references_from
no_references s e = rw e refl

pub empty-eq : (s : SliceData) → IsWindow s → length (bits s) ≡ 0 → is_empty s ≡ true
unfolding is_empty
empty-eq s w e = ground (arith, length-bits s w)

pub full-eq : (s : SliceData) → IsWindow s → 0 < length (bits s) → is_empty s ≡ false
unfolding is_empty
full-eq s w e = ground (arith, length-bits s w)

pub first_child :
    (s : SliceData) (c c' : Cell)
    → Refers s (c ∷ c' ∷ [])
    → (reference s 0 ≡ ok c) × (reference s 1 ≡ ok c')
first_child s c c' r =
    let (x, e, found) = r.found 0 (omega arith) in
    let (x', e', found') = r.found 1 (omega arith) in
    (
      found ∙ ap (λ o. elim o [ some z ↦ ok z | none ↦ ok c ]) (sym e),
      found' ∙ ap (λ o. elim o [ some z ↦ ok z | none ↦ ok c ]) (sym e'),
    )

pub e_is_fork-true :
    (s : SliceData) (refs : List Cell)
    → 1 < length refs
    → Refers s refs
    → e_is_fork s ≡ ok (s, true)
unfolding e_is_fork
e_is_fork-true s refs h r = ground (arith, r.count)

-- The key behind the bit that was read.
pub behind_label :
    (key' : SliceData)
    → IsWindow key'
    → remaining_references key' ≡ 0
    → (x : Bool) (tail : List Bool) (m : ℕ) → bits key' ≡ x ∷ tail
    → length tail ≡ m
    → Key (moved key' 1) m × (bits (moved key' 1) ≡ tail)
unfolding remaining_references
behind_label key' w bare x tail m e long =
    let (first, tail_bits, tail_window) = get_next_bit_int-first key' w x tail e in
    (record { window = tail_window; bare = bare; long = ap length tail_bits ∙ long }, tail_bits)

-- A key meets the label of a node.
module _ (key : SliceData) (n : ℕ) (k : Key key n) (label rest : List Bool) (refs : List Cell)
    (s cursor l : SliceData) (p : Parted s label rest refs cursor l) where
  pub erases : Erases key l (erase_prefix key l)
  erases =
      erase_prefix-Erases key l k.window p.label_window k.bare p.label_bare [] []
        (no_references key k.bare) (no_references l p.label_bare)

  pub has_bits : length label ≤ n → ¬ StartsWith (bits l) (bits key) → 0 < length (bits key)
  has_bits fits other = elim (Bool-cases (ltb 0 (length (bits key)))) [
    | inl h ↦ ground arith
    | inr h ↦ absurd (
        other (
          bits key,
          ap (λ t. t ++ bits key)
              (sym (no_bits (bits l) (ground (arith, k.long, ap length p.label_bits)))),
        ))
  ]

  -- The key goes on behind the label, or the search is over.
  pub descends :
      length label < n
      → ((key' : SliceData) × (erase_prefix key l ≡ ok (key', true))
          × IsWindow key'
          × (remaining_references key' ≡ 0)
          × (x : Bool) × (tail : List Bool) × (bits key' ≡ x ∷ tail)
          × (strip label (bits key) ≡ some (x ∷ tail))
          × (length tail ≡ n - suc (length label)))
        ⊎ ((erase_prefix key l ≡ ok (key, false))
            × (is_empty key ≡ false)
            × (strip label (bits key) ≡ none))
  descends below = elim erases [
    | inl (key', runs, d, more) ↦
        let (x, tail, e) = first_of (bits key') (
          omega (
            arith,
            k.long,
            ap length d.splits,
            length-append (bits l) (bits key'),
            ap length p.label_bits,
          )) in
        inl (
          key',
          runs,
          d.window,
          d.bare,
          x,
          tail,
          e,
          strip_starts label (bits key) (x ∷ tail) (d.splits ∙ ap₂ ◌++◌ p.label_bits e),
          omega (
            arith,
            k.long,
            ap length d.splits,
            length-append (bits l) (bits key'),
            ap length p.label_bits,
            ap length e,
          ),
        )
    | inr (runs, inl nothing) ↦ absurd (omega (arith, k.long, ap length nothing))
    | inr (runs, inr other) ↦ inr (
      runs,
      full-eq key k.window (has_bits (omega arith) other),
      strip_other label (bits key) (subst (λ t. ¬ StartsWith t (bits key)) p.label_bits other),
    )
  ]
