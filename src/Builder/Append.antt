-- ===== src/Builder/Append.antt =====
-- `append_raw` refines the append of bit strings.
mod Paths
use ton_labs_types.Base.{
  ℕ, ◌+◌, ◌-◌, ◌*◌, ◌≤◌, ◌<◌, ◌≡◌, refl, sym, ◌∙◌, Bool, List, [], ◌++◌, append-nil, arith, length,
  take, length-take, ◌⊎◌, inl, inr,
}
use ton_labs_types.Types.{ok, fail, fatal_error, cell_overflow}
use ton_labs_types.Bits.{bytes_bits, AllBytes}
use ton_labs_types.Bits.Laws.{length-bytes_bits}
use ton_labs_types.Builder.{BuilderData, append_raw, append_shifting, checked}
use ton_labs_types.Builder.Spec.{bits, IsValid}
use ton_labs_types.Builder.Cut.{length-cut_bytes, cut_bytes-AllBytes, take-cut_bytes}
use native.Mathlib.Decide.{ℕ_discrete, dec_le}
use Paths.{Joins, grown, append_shifting-grown}

checked-IsValid : (b : BuilderData) → IsValid b → checked b ≡ ok b
unfolding checked
checked-IsValid b v = ground arith

-- What an append promises: the bits of `added` behind those of `b`, a valid builder, and the rest
-- of the builder as it was.
pub record Appended (b : BuilderData) (added : List Bool) (b' : BuilderData) : Type 0 where
  pub spells : bits b' ≡ bits b ++ added
  pub length_in_bits : b'.length_in_bits ≡ b.length_in_bits + length added
  pub valid : IsValid b'
  pub references : b'.references ≡ b.references
  pub cell_type : b'.cell_type ≡ b.cell_type
  pub level_mask : b'.level_mask ≡ b.level_mask

module _ (b : BuilderData) (slice : List ℕ) (n : ℕ) (v : IsValid b) (a : AllBytes slice)
    (fits : n ≤ 8 * length slice) where
  length-added : length (take n (bytes_bits slice)) ≡ n
  length-added = length-take n (bytes_bits slice) ∙ omega (arith, length-bytes_bits slice)

  pub nothing-Appended : n ≡ 0 → Appended b (take n (bytes_bits slice)) b
  nothing-Appended e = rw e (record {
    spells = sym (append-nil (bits b));
    length_in_bits = omega arith;
    valid = v;
    references = refl;
    cell_type = refl;
    level_mask = refl;
  })

  grown-Appended :
      (joined : List ℕ)
      → b.length_in_bits + n ≤ 1023
      → Joins b slice n joined
      → Appended b (take n (bytes_bits slice)) (grown b joined n)
  grown-Appended joined room j = record {
    spells = take-cut_bytes joined (b.length_in_bits + n) j.long j.bytes ∙ j.spells;
    length_in_bits = omega (arith, length-added);
    valid = record {
      covered = omega (arith, length-cut_bytes joined (b.length_in_bits + n) j.long);
      in_capacity = room;
      stored = omega (arith, length-cut_bytes joined (b.length_in_bits + n) j.long);
      all_bytes = cut_bytes-AllBytes joined (b.length_in_bits + n) j.long j.bytes;
      few_references = v.few_references;
    };
    references = refl;
    cell_type = refl;
    level_mask = refl;
  }

  append_shifting-Appended :
      b.length_in_bits + n ≤ 1023
      → (b' : BuilderData) × (append_shifting b slice n ≡ ok b')
        × Appended b (take n (bytes_bits slice)) b'
  append_shifting-Appended room = elim (ℕ_discrete n 0) [
    | yes e ↦ (b, nothing e, nothing-Appended e)
    | no ne ↦
        let (joined, runs, j) = append_shifting-grown b slice n v a fits ne in
        (grown b joined n, runs, grown-Appended joined room j)
  ]
    where
      nothing : n ≡ 0 → append_shifting b slice n ≡ ok b
      nothing e = unfold append_shifting in rw e

  -- If the slice holds `n` bits and there is room for them, `append_raw` succeeds, and on every
  -- path (whole bytes, a partial last byte, a shift of every byte) the new builder is valid and
  -- spells the old bits and then the first `n` bits of the slice. The references, the type and the
  -- level mask stay.
  pub append_raw-Appended :
      b.length_in_bits + n ≤ 1023
      → (b' : BuilderData) × (append_raw b slice n ≡ ok b')
        × Appended b (take n (bytes_bits slice)) b'
  append_raw-Appended room =
      let (b', runs, spec) = append_shifting-Appended room in (b', raw b' runs spec.valid, spec)
    where
      raw :
          (b' : BuilderData)
          → append_shifting b slice n ≡ ok b'
          → IsValid b'
          → append_raw b slice n ≡ ok b'
      raw b' runs w = unfold append_raw in ground (arith, runs, checked-IsValid b' w)

too_short :
    (b : BuilderData) (slice : List ℕ) (n : ℕ)
    → 8 * length slice < n
    → append_raw b slice n ≡ fail fatal_error
unfolding append_raw
too_short b slice n h = ground arith

pub too_long :
    (b : BuilderData) (slice : List ℕ) (n : ℕ)
    → n ≤ 8 * length slice
    → 1023 < b.length_in_bits + n
    → append_raw b slice n ≡ fail cell_overflow
unfolding append_raw
too_long b slice n h k = ground arith

-- The outcomes of an append, each with its condition.
abbrev pub Outcome : BuilderData → List ℕ → ℕ → Type 0
Outcome b slice n =
    (8 * length slice < n × (append_raw b slice n ≡ fail fatal_error))
    ⊎ (n ≤ 8 * length slice
        × 1023 < b.length_in_bits + n
        × (append_raw b slice n ≡ fail cell_overflow))
    ⊎ (n ≤ 8 * length slice
        × b.length_in_bits + n ≤ 1023
        × (b' : BuilderData) × (append_raw b slice n ≡ ok b')
        × Appended b (take n (bytes_bits slice)) b')

-- On a valid builder `append_raw` has three outcomes. If the slice has fewer than `n` bits it is
-- `FatalError`. If it has them and there is no room it is `CellOverflow`. Else it succeeds, on every
-- path (whole bytes, a partial last byte, a shift of every byte), with a valid builder that spells
-- the old bits and then the first `n` bits of the slice, and keeps the references, the type and the
-- level mask.
pub append_raw-Outcome :
    (b : BuilderData) (slice : List ℕ) (n : ℕ) → IsValid b → AllBytes slice → Outcome b slice n
append_raw-Outcome b slice n v a = elim (dec_le n (8 * length slice)) [
  | no h ↦ inl (omega arith, too_short b slice n (omega arith))
  | yes h ↦ inr (elim (dec_le (b.length_in_bits + n) 1023) [
    | no k ↦ inl (h, omega arith, too_long b slice n h (omega arith))
    | yes k ↦
        let (b', runs, spec) = append_raw-Appended b slice n v a h k in inr (h, k, b', runs, spec)
  ])
]
