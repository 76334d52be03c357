-- ===== src/Dictionary/Walk/Bounds.antt =====
-- The bound of a count.
use ton_labs_types.Base.{
  ℕ, zero, suc, ◌+◌, ◌-◌, ◌≤◌, ◌≡◌, Bool, true, false, Option, none, some, ◌==◌, Bool-cases, inl,
  inr, if◌then◌else◌, arith,
}
use ton_labs_types.Types.{Result, ok, err, panic, ◌>>=◌}
use ton_labs_types.Cell.Tree.{Cell}
use ton_labs_types.Dictionary.LabelReader.{LabelReader, with_cell}
use ton_labs_types.Dictionary.Kind.{HashmapType}
use ton_labs_types.Dictionary.Get.{next_reader}
use ton_labs_types.Dictionary.Walk.{count_loop, count_internal, hashmap_count, skip_key}

-- What a count that started at `len` gives.
abbrev Counted : ℕ → ℕ → Result (ℕ × Bool) → Type 0
Counted len max (ok (len', all)) = (len ≤ len') × (len' ≤ max) × (all ≡ false → len' ≡ max)
Counted len max (err e) = Unit
Counted len max panic = Unit

Counted-bind :
    {A : Type 0} (len max : ℕ) (r : Result A) (f : A → Result (ℕ × Bool))
    → ((a : A) → Counted len max (f a))
    → Counted len max (r >>= f)
Counted-bind len max (ok a) f h = h a
Counted-bind len max (err e) f h = tt
Counted-bind len max panic f h = tt

Counted-then :
    (len max : ℕ) (r : Result (ℕ × Bool)) (f : ℕ × Bool → Result (ℕ × Bool))
    → Counted len max r
    → ((len' : ℕ) (all : Bool)
        → len ≤ len'
        → len' ≤ max
        → (all ≡ false → len' ≡ max)
        → Counted len max (f (len', all)))
    → Counted len max (r >>= f)
Counted-then len max (ok (len', all)) f c h = h len' all c.0 c.1 c.2
Counted-then len max (err e) f c h = tt
Counted-then len max panic f c h = tt

Counted-from :
    (len len' max : ℕ) (r : Result (ℕ × Bool)) → len ≤ len' → Counted len' max r → Counted len max r
Counted-from len len' max (ok (n, all)) h c = (omega (arith, c.0), c.1, c.2)
Counted-from len len' max (err e) h c = tt
Counted-from len len' max panic h c = tt

module _ (T : HashmapType) where
  leaf-Counted :
      (len max : ℕ)
      → len ≤ max
      → Counted len max (if len == max then ok (len, false) else ok (len + 1, true))
  leaf-Counted len max h = elim (Bool-cases (len == max)) [
    | inl e ↦ rw e (omega arith, h, λ _. ground arith)
    | inr e ↦ rw e (omega arith, ground arith, λ d. cc)
  ]

  -- The right child, if the left one was counted to its end.
  goes_on :
      (c : LabelReader) (count : LabelReader → ℕ → Result (ℕ × Bool)) (len max len' : ℕ)
      (all : Bool)
      → len ≤ len'
      → len' ≤ max
      → (all ≡ false → len' ≡ max)
      → ((q : LabelReader) → Counted len' max (count q len'))
      → Counted len max
          (elim all [ false ↦ ok (len', false) | true ↦ next_reader T c 1 >>= λ q. count q.1 len' ])
  goes_on c count len max len' false low high full h = (low, high, full)
  goes_on c count len max len' true low high full h =
      Counted-bind len max (next_reader T c 1) _
        λ q. Counted-from len len' max (count q.1 len') low (h q.1)

  -- A walk that starts at no more than `max` ends there, and stops early only at `max`.
  pub count_loop-Counted :
      (fuel : ℕ) (cursor : LabelReader) (n len max : ℕ)
      → len ≤ max
      → Counted len max (count_loop T fuel cursor n len max)
  unfolding count_loop
  count_loop-Counted zero cursor n len max h = tt
  count_loop-Counted (suc fuel) cursor n len max h =
      Counted-bind len max (skip_key T cursor n) _ λ r. elim (Bool-cases (r.1 == 0)) [
        | inl e ↦ rw e (leaf-Counted len max h)
        | inr e ↦ rw e (
            Counted-bind len max (next_reader T r.0 0) _ λ p.
              Counted-then len max (count_loop T fuel p.1 (r.1 - 1) len max) _
                (count_loop-Counted fuel p.1 (r.1 - 1) len max h)
                λ len' all low high full.
                  goes_on p.0 (λ q len''. count_loop T fuel q (r.1 - 1) len'' max) len max len' all
                    low high full (λ q. count_loop-Counted fuel q (r.1 - 1) len' max high))
      ]

  -- `count` never gives more than `max`.
  pub hashmap_count-bounded :
      (dict : Option Cell) (n max len : ℕ) → hashmap_count T dict n max ≡ ok len → len ≤ max
  unfolding hashmap_count count_internal
  hashmap_count-bounded none n max len e = ground arith
  hashmap_count-bounded (some root) n max len e = at_reader (with_cell root) e
    where
      at_reader :
          (r : Result LabelReader)
          → (r >>= λ cursor. count_loop T (n + 1) cursor n 0 max >>= λ c. ok c.0) ≡ ok len
          → len ≤ max
      at_reader (ok cursor) e =
          at_end (count_loop T (n + 1) cursor n 0 max)
            (count_loop-Counted (n + 1) cursor n 0 max (omega arith)) e
        where
          at_end :
              (r : Result (ℕ × Bool)) → Counted 0 max r → (r >>= λ c. ok c.0) ≡ ok len → len ≤ max
          at_end (ok (len', all)) c e = ground (arith, c.1)
          at_end (err x) c e = cc
          at_end panic c e = cc
      at_reader (err x) e = cc
      at_reader panic e = cc
