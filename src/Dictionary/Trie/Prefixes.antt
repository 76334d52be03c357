-- ===== src/Dictionary/Trie/Prefixes.antt =====
-- What `common_prefix` of a label and a key finds.
use ton_labs_types.Base.{
  ℕ, suc, ◌-◌, ◌≤◌, ◌<◌, ◌≡◌, ◌⊎◌, inl, inr, refl, sym, ap, ap₂, ◌∙◌, Bool, true, false, List, [],
  ◌∷◌, Option, none, some, lt→ltb, le→ltb, if◌then◌else◌, arith, length, drop, length-drop,
}
use ton_labs_types.Types.{ok}
use ton_labs_types.Bits.Common.{common}
use ton_labs_types.Cell.Tree.{Cell}
use ton_labs_types.Slice.{SliceData, remaining_references}
use ton_labs_types.Slice.Spec.{bits, IsWindow}
use ton_labs_types.Slice.Window.{length-bits, moved, move_by-Moved}
use ton_labs_types.Slice.Prefix.{common_prefix}
use ton_labs_types.Slice.Prefix.Splits.{behind, common_prefix-SplitsAt}
use ton_labs_types.Dictionary.Trie.{Trie, find, strip, branch}
use ton_labs_types.Dictionary.Trie.Edges.{Parted}
use ton_labs_types.Dictionary.Trie.Keys.{Key, first_of, no_references, behind_label}

moved_bare :
    (s : SliceData) (k : ℕ) → remaining_references s ≡ 0 → remaining_references (moved s k) ≡ 0
unfolding remaining_references
moved_bare s k e = e

-- `strip` and the length of the common prefix.
abbrev Strips : List Bool → List Bool → ℕ → Option (List Bool) → Type 0
Strips l k c r = ((c < length l) × (r ≡ none)) ⊎ ((c ≡ length l) × (r ≡ some (drop (length l) k)))

longer :
    (x : Bool) (l k : List Bool) (c : ℕ) (r : Option (List Bool))
    → Strips l k c r
    → Strips (x ∷ l) (x ∷ k) (suc c) r
longer x l k c r (inl (h, e)) = inl (omega (arith, h), e)
longer x l k c r (inr (h, e)) = inr (ap suc h, e)

strip-common : (l k : List Bool) → Strips l k (common l k) (strip l k)
strip-common [] k = inr (refl, refl)
strip-common (x ∷ l) [] = inl (omega arith, refl)
strip-common (true ∷ l) (true ∷ k) = longer true l k (common l k) (strip l k) (strip-common l k)
strip-common (true ∷ l) (false ∷ k) = inl (omega arith, refl)
strip-common (false ∷ l) (true ∷ k) = inl (omega arith, refl)
strip-common (false ∷ l) (false ∷ k) = longer false l k (common l k) (strip l k) (strip-common l k)

behind_some : (s : SliceData) (n : ℕ) → n < length (bits s) → behind s n ≡ some (moved s n)
behind_some s n h = rw (lt→ltb n (length (bits s)) h) refl

pub behind_none : (s : SliceData) (n : ℕ) → length (bits s) ≤ n → behind s n ≡ none
behind_none s n h = rw (le→ltb n (length (bits s)) h) refl

module _ (key : SliceData) (n : ℕ) (k : Key key n) (label rest : List Bool) (refs : List Cell)
    (s cursor l : SliceData) (p : Parted s label rest refs cursor l) where
  -- The key leaves the label, or it goes on behind it.
  pub parts :
      length label ≤ n
      → ((q : Option SliceData) × (u : SliceData) × (u' : SliceData) × (common_prefix l key
            ≡ ok (q, some u, some u'))
          × (strip label (bits key) ≡ none))
        ⊎ ((q : Option SliceData) × (common_prefix l key ≡ ok (q, none, behind key (length label)))
            × (strip label (bits key) ≡ some (drop (length label) (bits key))))
  parts fits =
      let (q, runs, is) =
        common_prefix-SplitsAt l key p.label_window k.window [] [] (no_references l p.label_bare)
          (no_references key k.bare) in
      let c : ℕ = common (bits l) (bits key) in
      elim (strip-common (bits l) (bits key)) [
        | inl (h, e) ↦ inl (
          q,
          moved l c,
          moved key c,
          runs
              ∙ ap₂ (λ a b. ok (q, a, b)) (behind_some l c h)
                  (behind_some key c (omega (arith, k.long, ap length p.label_bits))),
          ap (λ t. strip t (bits key)) (sym p.label_bits) ∙ e,
        )
        | inr (h, e) ↦ inr (
          q,
          runs
              ∙ ap₂ (λ a b. ok (q, a, b)) (behind_none l c (omega arith))
                  (ap (behind key) (h ∙ ap length p.label_bits)),
          ap (λ t. strip t (bits key)) (sym p.label_bits)
              ∙ e
              ∙ ap (λ t. some (drop (length t) (bits key))) p.label_bits,
        )
      ]

-- The key behind a label that it has.
pub goes_on :
    (key : SliceData) (n : ℕ) (k : Key key n) (label : List Bool) (q : Option SliceData)
    (l : SliceData)
    → common_prefix l key ≡ ok (q, none, behind key (length label))
    → strip label (bits key) ≡ some (drop (length label) (bits key))
    → length label < n
    → (key' : SliceData) × (common_prefix l key ≡ ok (q, none, some key'))
      × IsWindow key'
      × (x : Bool) × (tail : List Bool) × (bits key' ≡ x ∷ tail)
      × (strip label (bits key) ≡ some (x ∷ tail))
      × Key (moved key' 1) (n - suc (length label))
      × (bits (moved key' 1) ≡ tail)
goes_on key n k label q l runs strips below =
    let len : ℕ = length label in
    let (moves, m) =
      move_by-Moved key k.window len (omega (arith, k.long, length-bits key k.window)) in
    let long = length-drop len (bits key) in
    let (x, tail, first) =
      first_of (bits (moved key len)) (omega (arith, ap length m.spells, long, k.long)) in
    let (k', tail_bits) =
      behind_label (moved key len) m.valid (moved_bare key len k.bare) x tail (n - suc len) first
        (omega (arith, ap length m.spells, ap length first, long, k.long)) in
    (
      moved key len,
      runs ∙ ap (λ o. ok (q, none, o)) (behind_some key len (omega (arith, k.long))),
      m.valid,
      x,
      tail,
      first,
      strips ∙ ap some (sym m.spells ∙ first),
      k',
      tail_bits,
    )

pub on_branch :
    (left right : Trie) (x : Bool) (tail : List Bool)
    → branch (find left) (find right) (some (x ∷ tail)) ≡ find (if x then right else left) tail
on_branch left right true tail = refl
on_branch left right false tail = refl
