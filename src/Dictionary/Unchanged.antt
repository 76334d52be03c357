-- ===== src/Dictionary/Unchanged.antt =====
-- When a change leaves a dictionary as it was: a removal of a key that is not there, a put whose mode
-- does not allow it, a filter that is cancelled.
use ton_labs_types.Base.{
  ℕ, zero, suc, ◌≡◌, refl, ◌+◌, ◌-◌, Bool, true, false, List, Option, none, some, ◌||◌, Bool-cases,
  ◌==◌, inl, inr, arith,
}
use ton_labs_types.Types.{Result, ok, err, panic, ◌>>=◌}
use ton_labs_types.Cell.Tree.{Cell}
use ton_labs_types.Builder.{BuilderData}
use ton_labs_types.Builder.Operations.{append_bit_bool}
use ton_labs_types.Slice.{SliceData, remaining_bits, load_cell, checked_drain_reference}
use ton_labs_types.Dictionary.LabelReader.{slice_get_label_raw}
use ton_labs_types.Dictionary.Kind.{HashmapType}
use ton_labs_types.Dictionary.Remove.{remove_loop, remove_node}
use ton_labs_types.Dictionary.Put.{
  put_loop, put_to_node_with_mode, put_back, mode_bit, add_mode, replace_mode,
}
use ton_labs_types.Dictionary.Filter.{
  filter_next, Filtered, HashmapFilterResult, cancel, stop, accept, remove, left_alone, decided,
  filter_leaf, filter_fork, is_over, is_cancel, regrow, kept,
}

module _ (sha256 : List ℕ → List ℕ) (T : HashmapType) where
  remove-none :
      (fuel : ℕ) (dict dict' : Option Cell) (n : ℕ) (key : SliceData)
      → remove_loop sha256 T fuel dict n key ≡ ok (none, dict')
      → dict' ≡ dict
  unfolding remove_loop
  remove-none zero dict dict' n key e = cc
  remove-none (suc fuel) none dict' n key e = ground arith
  remove-none (suc fuel) (some cell) dict' n key e = ground arith

  -- Whether a put of the mode writes where it found a value, or none.
  abbrev pub allowed : ℕ → Option SliceData → Bool
  allowed mode none = mode_bit mode add_mode
  allowed mode (some s) = mode_bit mode replace_mode

  put-refused :
      (leaf : BuilderData) (fuel mode : ℕ) (cell cell' : Cell) (n : ℕ) (key : SliceData)
      (found : Option SliceData)
      → put_loop sha256 T leaf fuel mode cell n key ≡ ok (found, cell')
      → allowed mode found ≡ false
      → cell' ≡ cell
  unfolding put_loop put_back
  put-refused leaf zero mode cell cell' n key found e h = cc
  put-refused leaf (suc fuel) mode cell cell' n key none e h = ground arith
  put-refused leaf (suc fuel) mode cell cell' n key (some s) e h = ground arith

  -- A removal that finds nothing leaves the dictionary as it was.
  pub remove_node-none :
      (dict dict' : Option Cell) (n : ℕ) (key : SliceData)
      → remove_node sha256 T dict n key ≡ ok (none, dict')
      → dict' ≡ dict
  unfolding remove_node
  remove_node-none dict dict' n key e = remove-none (remaining_bits key + 1) dict dict' n key e

  -- A put whose mode has not the bit for what it found, `ADD` where it found nothing and `REPLACE`
  -- where it found a value, leaves the cell as it was.
  pub put_to_node-refused :
      (leaf : BuilderData) (mode : ℕ) (cell cell' : Cell) (n : ℕ) (key : SliceData)
      (found : Option SliceData)
      → put_to_node_with_mode sha256 T leaf mode cell n key ≡ ok (found, cell')
      → allowed mode found ≡ false
      → cell' ≡ cell
  unfolding put_to_node_with_mode
  put_to_node-refused leaf mode cell cell' n key found e h =
      put-refused leaf (remaining_bits key + 1) mode cell cell' n key found e h

module _ {ℓ} {S : Type ℓ} (sha256 : List ℕ → List ℕ) (T : HashmapType)
    (func : S → BuilderData → SliceData → Result (S × HashmapFilterResult)) where
  -- What a step of the filter has kept, if it was cancelled.
  abbrev Keeps : Option Cell → Result (Filtered S) → Type 0
  Keeps dict (ok f) = f.result ≡ cancel → f.cell_opt ≡ dict
  Keeps dict (err e) = Unit
  Keeps dict panic = Unit

  Keeps-bind {κ} :
      {A : Type κ} (dict : Option Cell) (r : Result A) (f : A → Result (Filtered S))
      → ((a : A) → Keeps dict (f a))
      → Keeps dict (r >>= f)
  Keeps-bind dict (ok a) f h = h a
  Keeps-bind dict (err e) f h = tt
  Keeps-bind dict panic f h = tt

  Keeps-split :
      (dict : Option Cell) (b : Bool) (x y : Result (Filtered S))
      → Keeps dict x
      → (b ≡ false → Keeps dict y)
      → Keeps dict (elim b [ true ↦ x | false ↦ y ])
  Keeps-split dict true x y h k = h
  Keeps-split dict false x y h k = k refl

  decided-Keeps :
      (f : Filtered S) (dict : Option Cell)
      → f.cell_opt ≡ dict
      → is_over f.result ≡ false
      → (v : HashmapFilterResult) → Keeps dict (ok (decided sha256 T func f v))
  unfolding decided
  decided-Keeps f dict e h cancel = λ _. e
  decided-Keeps f dict e h stop = λ _. e
  decided-Keeps f dict e h accept = λ _. e
  decided-Keeps f dict e h remove = λ d. ground (arith, d)

  leaf-Keeps :
      (cell : Cell) (key : BuilderData) (result : HashmapFilterResult) (cursor : SliceData)
      (state : S)
      → is_over result ≡ false
      → Keeps (some cell) (filter_leaf sha256 T func cell key result cursor state)
  unfolding filter_leaf left_alone
  leaf-Keeps cell key result cursor state h = Keeps-bind (some cell) (func state key cursor) _ λ r.
      decided-Keeps (left_alone sha256 T func (some cell) key result (some cursor) r.0) (some cell)
        refl h r.1

  fork-Keeps :
      (cell : Cell) (key : BuilderData) (len n : ℕ) (cursor : SliceData) (left right : Filtered S)
      → Keeps (some cell) (filter_fork sha256 T func cell key len n cursor left right)
  unfolding filter_fork left_alone
  fork-Keeps cell key len n cursor left right = elim (Bool-cases (is_cancel right.result)) [
    | inl e ↦ rw e (λ _. refl)
    | inr e ↦ elim (Bool-cases (left.removed || right.removed)) [
      | inl d ↦
          rw (e, d)
            (Keeps-bind (some cell) (regrow sha256 T func key len n (kept left) (kept right)) _
              λ r h. ground (arith, e, h))
      | inr d ↦ rw (e, d) (λ _. refl)
    ]
  ]

  filter-Keeps :
      (fuel : ℕ) (dict : Option Cell) (key : BuilderData) (n : ℕ) (result : HashmapFilterResult)
      (state : S)
      → Keeps dict (filter_next sha256 T func fuel dict key n result state)
  unfolding filter_next left_alone
  filter-Keeps zero dict key n result state = tt
  filter-Keeps (suc fuel) none key n result state = λ _. refl
  filter-Keeps (suc fuel) (some cell) key n result state =
      Keeps-split (some cell) (is_over result) _ _ (λ _. refl)
        λ e. Keeps-bind (some cell) (load_cell cell) _ λ loaded.
          Keeps-bind (some cell) (slice_get_label_raw loaded n key) _ λ r.
            Keeps-split (some cell) (r.1 == 0) _ _ (leaf-Keeps cell r.2 result r.0 state e) λ _.
              Keeps-bind (some cell) (append_bit_bool r.2 false) _ λ left_key.
                Keeps-bind (some cell) (checked_drain_reference r.0) _ λ first.
                  Keeps-bind (some cell)
                    (filter_next sha256 T func fuel (some first.1) left_key (r.1 - 1) result state)
                    _
                    λ left.
                      Keeps-split (some cell) (is_cancel left.result) _ _ (λ _. refl)
                        λ _. Keeps-bind (some cell) (append_bit_bool r.2 true) _ λ right_key.
                          Keeps-bind (some cell) (checked_drain_reference first.0) _ λ second.
                            Keeps-bind (some cell)
                              (filter_next sha256 T func fuel (some second.1) right_key (r.1 - 1)
                                left.result left.state)
                              _ λ right. fork-Keeps cell r.2 key.length_in_bits n r.0 left right

  -- A filter that its callback cancels leaves the tree as it was, whatever was removed before.
  pub filter_next-cancelled :
      (fuel : ℕ) (dict : Option Cell) (key : BuilderData) (n : ℕ) (result : HashmapFilterResult)
      (state : S) (f : Filtered S)
      → filter_next sha256 T func fuel dict key n result state ≡ ok f
      → f.result ≡ cancel
      → f.cell_opt ≡ dict
  filter_next-cancelled fuel dict key n result state f e h =
      kept_by (filter_next sha256 T func fuel dict key n result state)
        (filter-Keeps fuel dict key n result state) e
    where
      kept_by : (r : Result (Filtered S)) → Keeps dict r → r ≡ ok f → f.cell_opt ≡ dict
      kept_by (ok g) k e = ground (arith, k, e, h)
      kept_by (err x) k e = cc
      kept_by panic k e = cc
