-- ===== src/Dictionary/Label/Spec.antt =====
-- The grammar of labels: `hml_short`, `hml_long` and `hml_same` as bit strings.
use ton_labs_types.Base.{
  ℕ, ◌≤◌, ◌<◌, ◌^◌, ◌≡◌, Bool, true, false, List, ◌∷◌, ◌++◌, ◌⊎◌, length, replicate,
}
use ton_labs_types.Bits.{to_bits}

abbrev pub long_code : ℕ → List Bool → List Bool
long_code len key = true ∷ false ∷ (to_bits len (length key) ++ key)

abbrev pub short_code : List Bool → List Bool
short_code key = false ∷ (replicate (length key) true ++ (false ∷ key))

abbrev pub same_code : ℕ → Bool → ℕ → List Bool
same_code len bit n = true ∷ true ∷ bit ∷ to_bits len n

-- As few bits as hold the numbers up to `max`.
abbrev pub IsWidth : ℕ → ℕ → Type 0
IsWidth max w = (max < 2 ^ w) × ((w' : ℕ) → max < 2 ^ w' → w ≤ w')

-- The bits `code` are a label for `key`; the numbers in it have `len` bits.
abbrev pub IsLabel : ℕ → List Bool → List Bool → Type 0
IsLabel len key code =
    (code ≡ long_code len key)
    ⊎ (code ≡ short_code key)
    ⊎ ((bit : Bool) × (key ≡ replicate (length key) bit) × (code ≡ same_code len bit (length key)))

-- The grammar `HmLabel ~l max`, whose lengths are `n:(#<= max)`: a label for a key of at most `max`
-- bits.
abbrev pub IsHmLabel : ℕ → List Bool → List Bool → Type 0
IsHmLabel max key code = (length key ≤ max) × (w : ℕ) × IsWidth max w × IsLabel w key code

-- A label of the grammar, and none is shorter.
abbrev pub IsShortestLabel : ℕ → List Bool → List Bool → Type 0
IsShortestLabel max key code =
    IsHmLabel max key code
    × ((other : List Bool) → IsHmLabel max key other → length code ≤ length other)
