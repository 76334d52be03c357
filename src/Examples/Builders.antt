-- ===== src/Examples/Builders.antt =====
-- The builder's theorems at a builder of 13 bits.
use ton_labs_types.Base.{ℕ, ◌%◌, ◌≡◌, refl, List, [], ◌∷◌, ◌++◌, true, false, arith, take}
use ton_labs_types.Types.{ok}
use ton_labs_types.Bits.{to_bits, bytes_bits, AllBytes}
use ton_labs_types.Tag.{find_tag, append_tag}
use ton_labs_types.Tag.Find.{last_one, or_zero, find_tag-last_one}
use ton_labs_types.Tag.RoundTrip.{append_tag-bits, find_tag-append_tag}
use ton_labs_types.Builder.{
  BuilderData, append_raw, append_shifting, with_double_shifting, trimmed, checked, shifted_bytes,
  prepend_raw, new,
}
use ton_labs_types.Builder.Spec.{IsValid}
use ton_labs_types.Builder.Append.{Outcome, append_raw-Outcome}
use ton_labs_types.Builder.Operations.{
  append_bits, append_u8, append_u16, append_u32, append_u64, append_u128,
}
use ton_labs_types.Builder.Operations.Spells.{Appends, append_bits-Appended, append_integers}
use ton_labs_types.Builder.Operations.Whole.{
  Prepended, prepend_raw-Prepended, BuilderOutcome, append_builder-outcome,
}

-- 1010 0101 1100 1, and three bits behind it that do not count.
abbrev pub thirteen : BuilderData
thirteen = record new { bytes = 0xa5 ∷ 0xcf ∷ []; length_in_bits = 13 }

pub thirteen-IsValid : IsValid thirteen
thirteen-IsValid = record {
  covered = omega arith;
  in_capacity = omega arith;
  stored = omega arith;
  all_bytes = omega arith;
  few_references = omega arith;
}

abbrev two_bytes : List ℕ
two_bytes = 0xa5 ∷ 0xcf ∷ []

two_bytes-AllBytes : AllBytes two_bytes
two_bytes-AllBytes = omega arith

append_raw_run :
    append_raw thirteen (0xff ∷ []) 3
    ≡ ok (record new { bytes = 0xa5 ∷ 0xcf ∷ []; length_in_bits = 16 })
unfolding append_raw append_shifting with_double_shifting trimmed checked shifted_bytes
append_raw_run = refl

append_raw-Outcome_example : Outcome thirteen (0x5a ∷ 0x80 ∷ []) 9
append_raw-Outcome_example =
    append_raw-Outcome thirteen (0x5a ∷ 0x80 ∷ []) 9 thirteen-IsValid (omega arith)

append_bits-Appended_example : Appends thirteen (to_bits 11 0x5a5) (append_bits thirteen 0x5a5 11)
append_bits-Appended_example =
    append_bits-Appended thirteen thirteen-IsValid 0x5a5 11 (omega arith) (omega arith)

append_integers_example :
    Appends thirteen (to_bits 8 (0x12345 % 256)) (append_u8 thirteen (0x12345 % 256))
    × Appends thirteen (to_bits 16 0x12345) (append_u16 thirteen 0x12345)
    × Appends thirteen (to_bits 32 0x12345) (append_u32 thirteen 0x12345)
    × Appends thirteen (to_bits 64 0x12345) (append_u64 thirteen 0x12345)
    × Appends thirteen (to_bits 128 0x12345) (append_u128 thirteen 0x12345)
append_integers_example = append_integers thirteen thirteen-IsValid 0x12345 (omega arith)

prepend_raw-Prepended_example :
    (b : BuilderData) × (prepend_raw thirteen (0xf0 ∷ []) 5 ≡ ok b)
    × Prepended thirteen (take 5 (bytes_bits (0xf0 ∷ []))) b
prepend_raw-Prepended_example =
    prepend_raw-Prepended thirteen thirteen-IsValid (0xf0 ∷ []) 5 (omega arith) (omega arith)
      (omega arith)

append_builder-outcome_example : BuilderOutcome thirteen thirteen
append_builder-outcome_example =
    append_builder-outcome thirteen thirteen thirteen-IsValid thirteen-IsValid

find_tag-append_tag_example : find_tag (append_tag two_bytes 13) ≡ 13
find_tag-append_tag_example = find_tag-append_tag two_bytes 13 two_bytes-AllBytes (omega arith)

append_tag-bits_example :
    bytes_bits (append_tag two_bytes 13)
    ≡ take 13 (bytes_bits two_bytes) ++ (true ∷ false ∷ false ∷ [])
append_tag-bits_example = append_tag-bits two_bytes 13 two_bytes-AllBytes (omega arith)

find_tag-last_one_example : find_tag two_bytes ≡ or_zero (last_one (bytes_bits two_bytes))
find_tag-last_one_example = find_tag-last_one two_bytes two_bytes-AllBytes
