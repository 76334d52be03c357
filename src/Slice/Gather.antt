-- ===== src/Slice/Gather.antt =====
-- `gather`, the loop that puts the bytes of an integer side by side.
use ton_labs_types.Base.{
  ℕ, zero, suc, ◌+◌, ◌-◌, ◌*◌, ◌^◌, bit_or, ◌≤◌, ◌<◌, ◌≡◌, refl, sym, ap, ap₂, ◌∙◌, subst, Bool,
  List, ◌++◌, arith, take, drop, take_add, drop-drop,
}
use ton_labs_types.Types.{ok, ◌>>=◌}
use ton_labs_types.Bits.{to_bits}
use ton_labs_types.Bits.Laws.{to_bits-pair, pow_add}
use ton_labs_types.Bits.Fields.{bit_or-add}
use ton_labs_types.Slice.{SliceData}
use ton_labs_types.Slice.Reading.{gather, get_bits}
use ton_labs_types.Slice.Spec.{bits, IsWindow}
use ton_labs_types.Slice.Bits.{Spells, get_bits-Reads}
use native.Mathlib.Nat.{one-le-pow, mul-lt-mul_of_pos_right, mul_assoc, mul-le-mul_right}

-- `b` has `m` bits, and goes below `A`, at the place `k`.
pub join :
    (A b m k : ℕ) → b < 2 ^ m → bit_or (A * 2 ^ (m + k)) (b * 2 ^ k) ≡ (A * 2 ^ m + b) * 2 ^ k
join A b m k h =
    bit_or-add (m + k) A (b * 2 ^ k)
      (omega (arith, mul-lt-mul_of_pos_right h (one-le-pow k 2 (omega arith)), pow_add m k))
    ∙ omega (arith, ap (λ (t : ℕ). A * t) (pow_add m k), mul_assoc A (2 ^ m) (2 ^ k))

-- A number in front of another.
pub pair :
    (a b A u : ℕ) (l l' : List Bool)
    → Spells a A l
    → Spells b u l'
    → Spells (a + b) (A * 2 ^ b + u) (l ++ l')
pair a b A u l l' p q = (small, to_bits-pair a b A u q.0 ∙ ap₂ (λ t t'. t ++ t') p.1 q.1)
  where
    small : A * 2 ^ b + u < 2 ^ (a + b)
    small = omega (arith, mul-le-mul_right (2 ^ b) p.0, q.0, pow_add a b)

module _ (s : SliceData) (w : IsWindow s) where
  -- `n` bits from `offset`
  abbrev pub section : ℕ → ℕ → List Bool
  section offset n = take n (drop offset (bits s))

  pub sections :
      (offset a b : ℕ) → section offset a ++ section (offset + a) b ≡ section offset (a + b)
  sections offset a b = sym (
      take_add a b (drop offset (bits s))
      ∙ ap (λ t. section offset a ++ take b t) (drop-drop a offset (bits s)))

  Gathered : ℕ → ℕ → ℕ → ℕ → Type 0
  Gathered top i left A =
      (u : ℕ) × (gather s top i left (A * 2 ^ (8 * (top - i)))
        ≡ ok ((A * 2 ^ (8 * left) + u) * 2 ^ (8 * (top - i - left))))
      × Spells (8 * left) u (section (8 * i) (8 * left))

  gather-Gathered :
      (top i left A : ℕ)
      → i + left ≤ top
      → s.data_start + 8 * (i + left) ≤ s.data_end
      → Gathered top i left A
  unfolding Gathered gather to_bits
  gather-Gathered top i zero A h inside = (0, ap ok number, (omega arith, refl))
    where
      number : A * 2 ^ (8 * (top - i)) ≡ (A * 2 ^ (8 * 0) + 0) * 2 ^ (8 * (top - i - 0))
      number =
          ap (λ (k : ℕ). A * 2 ^ (8 * k)) {y = top - i - 0} (omega arith)
          ∙ ap (λ (t : ℕ). t * 2 ^ (8 * (top - i - 0))) {y = A * 2 ^ (8 * 0) + 0} (omega arith)
  gather-Gathered top i (suc left) A h inside =
      let (byte, read, digits) =
        get_bits-Reads s (8 * i) 8 w (omega arith) (omega arith) (omega arith) in
      let (u, rest, below) =
        gather-Gathered top (i + 1) left (A * 2 ^ 8 + byte) (omega arith) (omega arith) in
      (byte * 2 ^ (8 * left) + u, runs byte u read digits.0 rest, spelled byte u digits below)
    where
      place : 8 * (top - i) ≡ 8 + 8 * (top - (i + 1))
      place = omega arith

      number :
          (byte : ℕ)
          → byte < 2 ^ 8
          → bit_or (A * 2 ^ (8 * (top - i))) (byte * 2 ^ (8 * (top - 1 - i)))
            ≡ (A * 2 ^ 8 + byte) * 2 ^ (8 * (top - (i + 1)))
      number byte small =
          ap (λ m. bit_or (A * 2 ^ m) (byte * 2 ^ (8 * (top - 1 - i)))) place
          ∙ ap (λ m. bit_or (A * 2 ^ (8 + 8 * (top - (i + 1)))) (byte * 2 ^ m))
              {y = 8 * (top - (i + 1))} (omega arith)
          ∙ join A byte 8 (8 * (top - (i + 1))) small

      front :
          (byte u : ℕ)
          → (A * 2 ^ 8 + byte) * 2 ^ (8 * left) + u
            ≡ A * 2 ^ (8 * suc left) + (byte * 2 ^ (8 * left) + u)
      front byte u = omega (
        arith,
        ap (λ (t : ℕ). A * t) (pow_add 8 (8 * left)),
        ap (λ (t : ℕ). A * 2 ^ t) {x = 8 * suc left} {y = 8 + 8 * left} (omega arith),
      )

      regrouped :
          (byte u : ℕ)
          → ((A * 2 ^ 8 + byte) * 2 ^ (8 * left) + u) * 2 ^ (8 * (top - (i + 1) - left))
            ≡ (A * 2 ^ (8 * suc left) + (byte * 2 ^ (8 * left) + u))
              * 2 ^ (8 * (top - i - suc left))
      regrouped byte u =
          ap (λ (t : ℕ). t * 2 ^ (8 * (top - (i + 1) - left))) (front byte u)
          ∙ ap (λ (k : ℕ). (A * 2 ^ (8 * suc left) + (byte * 2 ^ (8 * left) + u)) * 2 ^ (8 * k))
              {y = top - i - suc left} (omega arith)

      runs :
          (byte u : ℕ)
          → get_bits s (8 * i) 8 ≡ ok byte
          → byte < 2 ^ 8
          → gather s top (i + 1) left ((A * 2 ^ 8 + byte) * 2 ^ (8 * (top - (i + 1))))
            ≡ ok (((A * 2 ^ 8 + byte) * 2 ^ (8 * left) + u) * 2 ^ (8 * (top - (i + 1) - left)))
          → gather s top i (suc left) (A * 2 ^ (8 * (top - i)))
            ≡ ok (
                (A * 2 ^ (8 * suc left) + (byte * 2 ^ (8 * left) + u))
                * 2 ^ (8 * (top - i - suc left)))
      runs byte u read small rest =
          ap
            (λ r. r >>= λ x.
              gather s top (i + 1) left
                (bit_or (A * 2 ^ (8 * (top - i))) (x * 2 ^ (8 * (top - 1 - i)))))
            read
          ∙ ap (gather s top (i + 1) left) (number byte small)
          ∙ rest
          ∙ ap ok (regrouped byte u)

      spelled :
          (byte u : ℕ)
          → Spells 8 byte (section (8 * i) 8)
          → Spells (8 * left) u (section (8 * (i + 1)) (8 * left))
          → Spells (8 * suc left) (byte * 2 ^ (8 * left) + u) (section (8 * i) (8 * suc left))
      spelled byte u p q =
          subst (λ k. Spells k (byte * 2 ^ (8 * left) + u) (section (8 * i) k)) {x = 8 + 8 * left}
            (omega arith)
            (subst (Spells (8 + 8 * left) (byte * 2 ^ (8 * left) + u))
              (sections (8 * i) 8 (8 * left))
              (pair 8 (8 * left) byte u _ _ p (
                subst (λ k. Spells (8 * left) u (section k (8 * left))) {x = 8 * (i + 1)}
                  (omega arith) q)))

  -- The loop that starts at zero.
  pub gathered :
      (top left : ℕ)
      → left ≤ top
      → s.data_start + 8 * left ≤ s.data_end
      → (u : ℕ) × (gather s top 0 left 0 ≡ ok (u * 2 ^ (8 * (top - left))))
        × Spells (8 * left) u (take (8 * left) (bits s))
  unfolding Gathered
  gathered top left h inside =
      let (u, runs, spelled) = gather-Gathered top 0 left 0 (omega arith) (omega arith) in
      (u, ap (gather s top 0 left) {x = 0} (omega arith) ∙ runs ∙ ap ok (number u), spelled)
    where
      number :
          (u : ℕ)
          → (0 * 2 ^ (8 * left) + u) * 2 ^ (8 * (top - 0 - left)) ≡ u * 2 ^ (8 * (top - left))
      number u =
          ap (λ (t : ℕ). t * 2 ^ (8 * (top - 0 - left))) {y = u} (omega arith)
          ∙ ap (λ (k : ℕ). u * 2 ^ (8 * k)) {y = top - left} (omega arith)
