-- ===== src/Builder/Operations/Whole.antt =====
-- Builders made from raw bytes, put in front, and joined.
use ton_labs_types.Base.{
  ℕ, ◌+◌, ◌*◌, ◌≤◌, ◌<◌, ◌≡◌, ◌≢◌, refl, sym, ap, ◌∙◌, Bool, false, List, [], ◌∷◌, ◌++◌, append-nil,
  append_assoc, arith, length, take, length-append, length-take, replicate, ◌⊎◌, inl, inr,
}
use ton_labs_types.Types.{ok, fail, cell_overflow}
use ton_labs_types.Bits.{bytes_bits, AllBytes}
use ton_labs_types.Bits.Laws.{length-bytes_bits}
use ton_labs_types.Cell.Tree.{Cell}
use ton_labs_types.Cell.CellType.{ordinary}
use ton_labs_types.Cell.LevelMask.{with_mask}
use ton_labs_types.Builder.{
  BuilderData, cut_bytes, append_raw, prepend_raw, with_raw, append_all_references,
  checked_append_reference, references_free,
}
use ton_labs_types.Builder.Spec.{bits, IsValid}
use ton_labs_types.Builder.Cut.{
  padding, cut_bytes-bits, length-cut_bytes, cut_bytes-AllBytes, take-cut_bytes,
}
use ton_labs_types.Builder.Append.{Appended, append_raw-Appended}
use ton_labs_types.Builder.Operations.{append_builder, can_append}
use native.Mathlib.Decide.{ℕ_discrete, dec_le}

-- A builder from raw bytes: the first `n` bits, and zeros up to the end of the last byte.
pub record IsRaw (bytes : List ℕ) (n : ℕ) (b : BuilderData) : Type 0 where
  pub length_in_bits : b.length_in_bits ≡ n
  pub spells : bits b ≡ take n (bytes_bits bytes)
  pub padded : bytes_bits b.bytes ≡ bits b ++ replicate (padding n) false
  pub valid : IsValid b
  pub references : b.references ≡ []

abbrev raw_builder : List ℕ → ℕ → BuilderData
raw_builder bytes n = record {
  bytes = cut_bytes bytes n;
  length_in_bits = n;
  references = [];
  cell_type = ordinary;
  level_mask = 0;
}

-- `with_raw` takes the first `n` bits of the bytes, and clears what lies behind them.
pub with_raw-IsRaw :
    (bytes : List ℕ) (n : ℕ)
    → AllBytes bytes
    → n ≤ 8 * length bytes
    → n ≤ 1023
    → (b : BuilderData) × (with_raw bytes n ≡ ok b) × IsRaw bytes n b
unfolding with_raw with_mask
with_raw-IsRaw bytes n a fits room = (
  raw_builder bytes n,
  ground arith,
  record {
    length_in_bits = refl;
    spells = take-cut_bytes bytes n fits a;
    padded =
        cut_bytes-bits bytes n fits a
        ∙ ap (λ t. t ++ replicate (padding n) false) (sym (take-cut_bytes bytes n fits a));
    valid = record {
      covered = omega (arith, length-cut_bytes bytes n fits);
      in_capacity = room;
      stored = omega (arith, length-cut_bytes bytes n fits);
      all_bytes = cut_bytes-AllBytes bytes n fits a;
      few_references = omega arith;
    };
    references = refl;
  },
)

-- The bits in front of the old ones, and all else as it was.
pub record Prepended (b : BuilderData) (added : List Bool) (b' : BuilderData) : Type 0 where
  pub spells : bits b' ≡ added ++ bits b
  pub length_in_bits : b'.length_in_bits ≡ length added + b.length_in_bits
  pub valid : IsValid b'
  pub references : b'.references ≡ b.references
  pub cell_type : b'.cell_type ≡ b.cell_type
  pub level_mask : b'.level_mask ≡ b.level_mask

module _ (b : BuilderData) (v : IsValid b) where
  prepend_something :
      (slice : List ℕ) (n : ℕ) (start buffer : BuilderData)
      → n ≢ 0
      → with_raw slice n ≡ ok start
      → append_raw start b.bytes b.length_in_bits ≡ ok buffer
      → prepend_raw b slice n
        ≡ ok (record b { length_in_bits = buffer.length_in_bits; bytes = buffer.bytes })
  unfolding prepend_raw
  prepend_something slice n start buffer ne p q = ground (arith, p, q)

  prepend_nothing : (slice : List ℕ) (n : ℕ) → n ≡ 0 → prepend_raw b slice n ≡ ok b
  unfolding prepend_raw
  prepend_nothing slice n e = rw e

  -- `prepend_raw` puts the first `n` bits of the slice in front, where they exist and there is
  -- room.
  pub prepend_raw-Prepended :
      (slice : List ℕ) (n : ℕ)
      → AllBytes slice
      → n ≤ 8 * length slice
      → n + b.length_in_bits ≤ 1023
      → (b' : BuilderData) × (prepend_raw b slice n ≡ ok b')
        × Prepended b (take n (bytes_bits slice)) b'
  prepend_raw-Prepended slice n a fits room = elim (ℕ_discrete n 0) [
    | yes e ↦ (
      b,
      prepend_nothing slice n e,
      rw e (record {
        spells = refl;
        length_in_bits = omega arith;
        valid = v;
        references = refl;
        cell_type = refl;
        level_mask = refl;
      }),
    )
    | no ne ↦
        let (start, p, raw) = with_raw-IsRaw slice n a fits (omega arith) in
        let (buffer, q, spec) =
          append_raw-Appended start b.bytes b.length_in_bits raw.valid v.all_bytes v.covered
            (omega (arith, raw.length_in_bits, room)) in
        (
          record b { length_in_bits = buffer.length_in_bits; bytes = buffer.bytes },
          prepend_something slice n start buffer ne p q,
          record {
            spells = spec.spells ∙ ap (λ t. t ++ bits b) raw.spells;
            length_in_bits = omega (
              arith,
              spec.length_in_bits,
              raw.length_in_bits,
              length-take n (bytes_bits slice),
              length-bytes_bits slice,
              length-take b.length_in_bits (bytes_bits b.bytes),
              length-bytes_bits b.bytes,
              v.covered,
            );
            valid = record {
              covered = spec.valid.covered;
              in_capacity = spec.valid.in_capacity;
              stored = spec.valid.stored;
              all_bytes = spec.valid.all_bytes;
              few_references = v.few_references;
            };
            references = refl;
            cell_type = refl;
            level_mask = refl;
          },
        )
  ]

pub push_reference :
    (b : BuilderData) (c : Cell)
    → length b.references < 4
    → checked_append_reference b c ≡ ok (record b { references = b.references ++ (c ∷ []) })
unfolding checked_append_reference references_free
push_reference b c h = ground arith

-- References are appended in order, while there is room for all.
pub append_all_references_lem :
    (cells : List Cell) (b : BuilderData)
    → length b.references + length cells ≤ 4
    → append_all_references b cells ≡ ok (record b { references = b.references ++ cells })
unfolding append_all_references
append_all_references_lem [] b h =
    ap (λ t. ok (record b { references = t })) (sym (append-nil b.references))
append_all_references_lem (c ∷ cs) b h = rw (push_reference b c (omega arith)) (
    append_all_references_lem cs (record b { references = b.references ++ (c ∷ []) })
      (omega (arith, length-append b.references (c ∷ [])))
    ∙ ap (λ t. ok (record b { references = t })) (append_assoc b.references (c ∷ []) cs))

-- The outcomes of `append_builder`, each with its condition.
abbrev pub BuilderOutcome : BuilderData → BuilderData → Type 0
BuilderOutcome b x =
    (((1023 < b.length_in_bits + x.length_in_bits)
        ⊎ (4 < length b.references + length x.references))
      × (append_builder b x ≡ fail cell_overflow))
    ⊎ ((b' : BuilderData) × (append_builder b x ≡ ok b')
        × (bits b' ≡ bits b ++ bits x)
        × (b'.references ≡ b.references ++ x.references)
        × (b'.cell_type ≡ b.cell_type)
        × (b'.level_mask ≡ b.level_mask)
        × IsValid b')

module _ (b x : BuilderData) (v : IsValid b) (w : IsValid x) where
  pub append_builder-spells :
      b.length_in_bits + x.length_in_bits ≤ 1023
      → length b.references + length x.references ≤ 4
      → (b' : BuilderData) × (append_builder b x ≡ ok b')
        × (bits b' ≡ bits b ++ bits x)
        × (b'.references ≡ b.references ++ x.references)
        × (b'.cell_type ≡ b.cell_type)
        × (b'.level_mask ≡ b.level_mask)
        × IsValid b'
  append_builder-spells room refs =
      let (b', p, spec) =
        append_raw-Appended b x.bytes x.length_in_bits v w.all_bytes w.covered room in
      let cells = x.references in
      (
        record b' { references = b'.references ++ cells },
        runs b' p spec,
        spec.spells,
        ap (λ t. t ++ cells) spec.references,
        spec.cell_type,
        spec.level_mask,
        record {
          covered = spec.valid.covered;
          in_capacity = spec.valid.in_capacity;
          stored = spec.valid.stored;
          all_bytes = spec.valid.all_bytes;
          few_references =
              omega (arith, length-append b'.references cells, ap length spec.references);
        },
      )
    where
      runs :
          (b' : BuilderData)
          → append_raw b x.bytes x.length_in_bits ≡ ok b'
          → Appended b (bits x) b'
          → append_builder b x ≡ ok (record b' { references = b'.references ++ x.references })
      runs b' p spec =
          unfold append_builder can_append in
          ground (
            arith,
            p,
            append_all_references_lem x.references b' (omega (arith, ap length spec.references)),
          )

  append_builder-overflow :
      (1023 < b.length_in_bits + x.length_in_bits) ⊎ (4 < length b.references + length x.references)
      → append_builder b x ≡ fail cell_overflow
  unfolding append_builder can_append
  append_builder-overflow h = ground arith

  -- Of valid builders `append_builder` has two outcomes: if the bits or the references do not fit it
  -- is `CellOverflow`; else it succeeds, with a valid builder that has the bits and the references
  -- of both, in order, and the type and the level mask of the first.
  pub append_builder-outcome : BuilderOutcome b x
  append_builder-outcome = elim (dec_le (b.length_in_bits + x.length_in_bits) 1023) [
    | no h ↦ inl (inl (omega arith), append_builder-overflow (inl (omega arith)))
    | yes h ↦ elim (dec_le (length b.references + length x.references) 4) [
      | no k ↦ inl (inr (omega arith), append_builder-overflow (inr (omega arith)))
      | yes k ↦ inr (append_builder-spells h k)
    ]
  ]
