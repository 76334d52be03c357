-- ===== src/Dictionary/LabelReader/Sizes.antt =====
-- `get_next_size`, the number in a label, and the builder of equal bits.
use ton_labs_types.Base.{
  ℕ, zero, suc, ◌+◌, ◌*◌, ◌/◌, ◌%◌, ◌^◌, ◌≤◌, ◌<◌, ◌≡◌, ◌≢◌, refl, ap, ap₂, ◌∙◌, Bool, true, false,
  List, ◌++◌, subst, arith, length, take, replicate, replicate_add, take-replicate, take-append_eq,
  if◌then◌else◌, length-append, length-replicate,
}
use ton_labs_types.Types.{ok}
use ton_labs_types.Bits.{bytes_bits, to_bits, AllBytes}
use ton_labs_types.Bits.Laws.{length-to_bits}
use ton_labs_types.Builder.{BuilderData, new, append_raw}
use ton_labs_types.Builder.Spec as Builder
use ton_labs_types.Builder.Append.{Appended, append_raw-Appended}
use ton_labs_types.Slice.{SliceData}
use ton_labs_types.Slice.Reading.{get_next_size}
use ton_labs_types.Slice.Spec.{bits, IsWindow}
use ton_labs_types.Slice.RoundTrip.{digits-injective}
use ton_labs_types.Slice.Integers.{get_next_int-ReadsNext}
use ton_labs_types.Slice.Window.{length-bits, moved}
use ton_labs_types.Dictionary.Label.Width.{
  width, significant_bits-le, significant_bits-lt, significant_bits-suc,
}
use ton_labs_types.Dictionary.LabelReader.Parts.{Passed, passed}

module _ (max : ℕ) (positive : max ≢ 0) (small : max < 2 ^ 16) where
  below_width : (n : ℕ) → n ≤ max → n < 2 ^ width max
  below_width n h = omega (arith, significant_bits-lt 16 (max % 2 ^ 16) (omega arith))

  width_positive : width max ≢ 0
  width_positive e = omega (arith, significant_bits-suc 15 (max % 2 ^ 16) (omega arith))

  -- A number up to `max` in the bits that such a number has.
  pub get_next_size-Passed :
      (s : SliceData) (w : IsWindow s) (n : ℕ) (rest : List Bool)
      → n ≤ max
      → bits s ≡ to_bits (width max) n ++ rest
      → (get_next_size s max ≡ ok (moved s (width max), n)) × Passed s (width max) rest
  unfolding get_next_size
  get_next_size-Passed s w n rest h e =
      let (v, runs, (low, digits), behind) =
        get_next_int-ReadsNext s w (width max) width_positive
          (omega (arith, significant_bits-le 16 (max % 2 ^ 16)))
          (omega (
            arith,
            ap length e,
            length-append (to_bits (width max) n) rest,
            length-to_bits (width max) n,
            length-bits s w,
            w.ordered,
          )) in
      let same = digits-injective (width max) v n low (below_width n h) (
        digits
        ∙ ap (take (width max)) e
        ∙ take-append_eq (width max) (to_bits (width max) n) rest (length-to_bits (width max) n)) in
      (
        ground (arith, runs ∙ ap (λ t. ok (moved s (width max), t)) same),
        subst (λ k. Passed s k rest) (length-to_bits (width max) n)
            (passed s w (to_bits (width max) n) rest e),
      )

-- Equal bytes of ones or of zeros.
abbrev pub byte_of : Bool → ℕ
byte_of bit = if bit then 0xff else 0

byte_of-bits : (bit : Bool) → to_bits 8 (byte_of bit) ≡ replicate 8 bit
unfolding to_bits
byte_of-bits true = refl
byte_of-bits false = refl

bytes_bits-replicate :
    (m : ℕ) (bit : Bool) → bytes_bits (replicate m (byte_of bit)) ≡ replicate (8 * m) bit
unfolding bytes_bits
bytes_bits-replicate zero bit = refl
bytes_bits-replicate (suc m) bit =
    ap₂ (λ a b. a ++ b) (byte_of-bits bit) (bytes_bits-replicate m bit)
    ∙ replicate_add 8 (8 * m) bit
    ∙ ap (λ k. replicate k bit) {x = 8 + 8 * m} {y = 8 * suc m} (omega arith)

byte_of-AllBytes : (m : ℕ) (bit : Bool) → AllBytes (replicate m (byte_of bit))
byte_of-AllBytes zero bit = tt
byte_of-AllBytes (suc m) true = (omega arith, byte_of-AllBytes m true)
byte_of-AllBytes (suc m) false = (omega arith, byte_of-AllBytes m false)

-- `n` equal bits as `get_label_same` appends them.
pub equal_bits-Appended :
    (b : BuilderData) (n : ℕ) (bit : Bool)
    → Builder.IsValid b
    → b.length_in_bits + n ≤ 1023
    → (b' : BuilderData) × (append_raw b (replicate (n / 8 + 1) (byte_of bit)) n ≡ ok b')
      × Appended b (replicate n bit) b'
equal_bits-Appended b n bit v room =
    subst
      (λ l.
        (b' : BuilderData) × (append_raw b (replicate (n / 8 + 1) (byte_of bit)) n ≡ ok b')
        × Appended b l b')
      (ap (take n) (bytes_bits-replicate (n / 8 + 1) bit)
        ∙ take-replicate n (8 * (n / 8 + 1)) bit (omega arith))
      (append_raw-Appended b (replicate (n / 8 + 1) (byte_of bit)) n v
        (byte_of-AllBytes (n / 8 + 1) bit)
        (omega (arith, length-replicate (n / 8 + 1) (byte_of bit))) room)

pub new-IsValid : Builder.IsValid new
new-IsValid = record {
  covered = omega arith;
  in_capacity = omega arith;
  stored = omega arith;
  all_bytes = tt;
  few_references = omega arith;
}
