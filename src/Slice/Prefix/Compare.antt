-- ===== src/Slice/Prefix/Compare.antt =====
-- The comparison of a slice with one that has no references.
use ton_labs_types.Base.{
  ℕ, zero, suc, ◌+◌, ◌-◌, ◌*◌, ◌/◌, ◌≤◌, ◌<◌, ◌≡◌, ◌≢◌, refl, Bool, true, false, Option, none, some,
  ltb, leb, ◌==◌, eq→==, ne→==, Bool-cases, inl, inr, arith, length,
}
use ton_labs_types.Types.{Result, ok}
use ton_labs_types.Bits.Common.{common_le, common_whole}
use ton_labs_types.Slice.{SliceData, remaining_references}
use ton_labs_types.Slice.Reading.{get_bits, get_byte}
use ton_labs_types.Slice.Spec.{bits, IsWindow}
use ton_labs_types.Slice.Window.{length-bits, remaining}
use ton_labs_types.Slice.Bits.{get_bits-Reads}
use ton_labs_types.Slice.Prefix.{same_slice, same_tail, same_bytes, same_references}
use ton_labs_types.Slice.Prefix.Shared.{Upto, equal_up, same_bits}
use native.Mathlib.Decide.{ℕ_discrete}

module _ (a b : SliceData) (wa : IsWindow a) (wb : IsWindow b)
    (same_length : length (bits a) ≡ length (bits b)) where
  -- What the loop over the bytes finds: a difference, or all bytes equal.
  abbrev Compared : Option ℕ → Type 0
  Compared none = Unit
  Compared (some o) = (o ≤ length (bits a)) × Upto a b wa wb o × (length (bits a) < o + 8)

  same_bytes-Compared :
      (fuel o : ℕ)
      → o ≤ length (bits a)
      → length (bits a) < o + 8 * fuel
      → Upto a b wa wb o
      → (r : Option ℕ) × (same_bytes fuel a b (length (bits a)) o ≡ ok r) × Compared r
  unfolding same_bytes get_byte
  same_bytes-Compared zero o h f u = absurd (omega arith)
  same_bytes-Compared (suc fuel) o h f u = elim (Bool-cases (leb (o + 8) (length (bits a)))) [
    | inr e ↦ (some o, rw e refl, (h, u, ground arith))
    | inl e ↦
        let inside : o + 8 ≤ length (bits a) = ground arith in
        let (x, reads, (below, spells)) =
          get_bits-Reads a o 8 wa (omega (arith, length-bits a wa)) (omega arith) (omega arith) in
        let (y, reads', (below', spells')) =
          get_bits-Reads b o 8 wb (omega (arith, same_length, length-bits b wb)) (omega arith)
            (omega arith) in
        elim (Bool-cases (x == y)) [
          | inl same ↦
              let (r, runs, c) =
                same_bytes-Compared fuel (o + 8) inside (omega arith)
                  (equal_up a b wa wb o 8 (omega arith) u (same_bits 8 x y same spells spells')) in
              (r, rw (e, reads, reads', same) runs, c)
          | inr other ↦ (none, rw (e, reads, reads', other) refl, tt)
        ]
  ]

  whole_equal : (o : ℕ) → o ≡ length (bits a) → Upto a b wa wb o → bits a ≡ bits b
  whole_equal o e u =
      common_whole (bits a) (bits b) same_length (omega (arith, u, common_le (bits a) (bits b)))

  -- The bits behind the whole bytes.
  tail_equal :
      (o : ℕ)
      → Compared (some o)
      → o < length (bits a)
      → (x : ℕ) × (y : ℕ) × (get_bits a o (length (bits a) - o) ≡ ok x)
        × (get_bits b o (length (bits a) - o) ≡ ok y)
        × ((x == y) ≡ true → bits a ≡ bits b)
  tail_equal o (h, u, near) more =
      let n = length (bits a) - o in
      let (x, reads, (below, spells)) =
        get_bits-Reads a o n wa (omega (arith, length-bits a wa)) (omega arith) (omega arith) in
      let (y, reads', (below', spells')) =
        get_bits-Reads b o n wb (omega (arith, same_length, length-bits b wb)) (omega arith)
          (omega arith) in
      (
        x,
        y,
        reads,
        reads',
        λ same. whole_equal (o + n) (omega arith) (
            equal_up a b wa wb o n (omega (arith, same_length)) u
              (same_bits n x y same spells spells')),
      )

-- A comparison that says yes has compared all bits.
abbrev pub Agrees : SliceData → SliceData → Result Bool → Type 0
Agrees a b r = (same : Bool) × (r ≡ ok same) × (same ≡ true → bits a ≡ bits b)

module _ (a b : SliceData) (wa : IsWindow a) (wb : IsWindow b) (bare : remaining_references a ≡ 0)
    (bare' : remaining_references b ≡ 0) where
  same_slice-at :
      (e : length (bits a) ≡ length (bits b)) (r : Option ℕ)
      → same_bytes (length (bits a) / 8 + 1) a b (length (bits a)) 0 ≡ ok r
      → Compared a b wa wb e r
      → Agrees a b (same_slice a b)
  unfolding same_slice same_tail same_references
  same_slice-at e none runs c = (
    false,
    rw
        (
          remaining a wa,
          remaining b wb,
          bare,
          bare',
          eq→== (length (bits a)) (length (bits b)) e,
          runs,
        )
        refl,
    λ d. cc,
  )
  same_slice-at e (some o) runs c = elim (Bool-cases (ltb o (length (bits a)))) [
    | inl more ↦
        let (x, y, reads, reads', agree) = tail_equal a b wa wb e o c (ground arith) in
        elim (Bool-cases (x == y)) [
          | inl same ↦ (
            true,
            rw
                (
                  remaining a wa,
                  remaining b wb,
                  bare,
                  bare',
                  eq→== (length (bits a)) (length (bits b)) e,
                  runs,
                  more,
                  reads,
                  reads',
                  same,
                )
                refl,
            λ d. agree same,
          )
          | inr other ↦ (
            false,
            rw
                (
                  remaining a wa,
                  remaining b wb,
                  bare,
                  bare',
                  eq→== (length (bits a)) (length (bits b)) e,
                  runs,
                  more,
                  reads,
                  reads',
                  other,
                )
                refl,
            λ d. cc,
          )
        ]
    | inr done ↦ (
      true,
      rw
          (
            remaining a wa,
            remaining b wb,
            bare,
            bare',
            eq→== (length (bits a)) (length (bits b)) e,
            runs,
            done,
          )
          refl,
      λ d. whole_equal a b wa wb e o (ground (arith, c.0)) c.1,
    )
  ]

  pub same_slice-Agrees : Agrees a b (same_slice a b)
  same_slice-Agrees = elim (ℕ_discrete (length (bits a)) (length (bits b))) [
    | yes e ↦
        let (r, runs, c) =
          same_bytes-Compared a b wa wb e (length (bits a) / 8 + 1) 0 (omega arith) (omega arith)
            (omega arith) in
        same_slice-at e r runs c
    | no e ↦ (false, lengths_differ e, λ d. cc)
  ]
    where
      lengths_differ : length (bits a) ≢ length (bits b) → same_slice a b ≡ ok false
      lengths_differ e =
          unfold same_slice in
          rw (remaining a wa, remaining b wb, ne→== (length (bits a)) (length (bits b)) e) refl
