-- ===== src/Bits/Common.antt =====
-- The length of the longest common prefix of two bit strings: the reference for `common_prefix`.
use ton_labs_types.Base.{
  ℕ, suc, ◌+◌, ◌≤◌, ◌<◌, ◌≡◌, refl, ap, Bool, true, false, List, [], ◌∷◌, ◌++◌, arith, length, take,
}

abbrev pub common : List Bool → List Bool → ℕ
common [] ys = 0
common (x ∷ xs) [] = 0
common (true ∷ xs) (true ∷ ys) = suc (common xs ys)
common (true ∷ xs) (false ∷ ys) = 0
common (false ∷ xs) (true ∷ ys) = 0
common (false ∷ xs) (false ∷ ys) = suc (common xs ys)

pub common_nil : (xs : List Bool) → common xs [] ≡ 0
common_nil [] = refl
common_nil (x ∷ xs) = refl

pub common-append_same :
    (u xs ys : List Bool) → common (u ++ xs) (u ++ ys) ≡ length u + common xs ys
common-append_same [] xs ys = omega arith
common-append_same (true ∷ u) xs ys = omega (arith, common-append_same u xs ys)
common-append_same (false ∷ u) xs ys = omega (arith, common-append_same u xs ys)

pub common-append_differ :
    (u v xs ys : List Bool)
    → length u ≡ length v
    → common u v < length u
    → common (u ++ xs) (v ++ ys) ≡ common u v
common-append_differ [] v xs ys e h = absurd (omega arith)
common-append_differ (x ∷ u) [] xs ys e h = absurd (omega arith)
common-append_differ (true ∷ u) (true ∷ v) xs ys e h =
    ap suc (common-append_differ u v xs ys (omega arith) (omega arith))
common-append_differ (true ∷ u) (false ∷ v) xs ys e h = refl
common-append_differ (false ∷ u) (true ∷ v) xs ys e h = refl
common-append_differ (false ∷ u) (false ∷ v) xs ys e h =
    ap suc (common-append_differ u v xs ys (omega arith) (omega arith))

pub common-append_last :
    (u v xs ys : List Bool)
    → length u ≡ length v
    → common xs ys ≡ 0
    → common (u ++ xs) (v ++ ys) ≡ common u v
common-append_last [] [] xs ys e h = h
common-append_last [] (y ∷ v) xs ys e h = absurd (omega arith)
common-append_last (x ∷ u) [] xs ys e h = absurd (omega arith)
common-append_last (true ∷ u) (true ∷ v) xs ys e h =
    ap suc (common-append_last u v xs ys (omega arith) h)
common-append_last (true ∷ u) (false ∷ v) xs ys e h = refl
common-append_last (false ∷ u) (true ∷ v) xs ys e h = refl
common-append_last (false ∷ u) (false ∷ v) xs ys e h =
    ap suc (common-append_last u v xs ys (omega arith) h)

pub common_le : (xs ys : List Bool) → (common xs ys ≤ length xs) × (common xs ys ≤ length ys)
common_le [] ys = (omega arith, omega arith)
common_le (x ∷ xs) [] = (omega arith, omega arith)
common_le (true ∷ xs) (true ∷ ys) = omega (arith, common_le xs ys)
common_le (true ∷ xs) (false ∷ ys) = (omega arith, omega arith)
common_le (false ∷ xs) (true ∷ ys) = (omega arith, omega arith)
common_le (false ∷ xs) (false ∷ ys) = omega (arith, common_le xs ys)

pub take-common : (xs ys : List Bool) → take (common xs ys) xs ≡ take (common xs ys) ys
take-common [] [] = refl
take-common [] (y ∷ ys) = refl
take-common (x ∷ xs) [] = refl
take-common (true ∷ xs) (true ∷ ys) = ap (true ∷◌) (take-common xs ys)
take-common (true ∷ xs) (false ∷ ys) = refl
take-common (false ∷ xs) (true ∷ ys) = refl
take-common (false ∷ xs) (false ∷ ys) = ap (false ∷◌) (take-common xs ys)

pub common_whole : (xs ys : List Bool) → length xs ≡ length ys → common xs ys ≡ length xs → xs ≡ ys
common_whole [] [] e h = refl
common_whole [] (y ∷ ys) e h = absurd (omega arith)
common_whole (x ∷ xs) [] e h = absurd (omega arith)
common_whole (true ∷ xs) (true ∷ ys) e h =
    ap (true ∷◌) (common_whole xs ys (omega arith) (omega arith))
common_whole (true ∷ xs) (false ∷ ys) e h = absurd (omega arith)
common_whole (false ∷ xs) (true ∷ ys) e h = absurd (omega arith)
common_whole (false ∷ xs) (false ∷ ys) e h =
    ap (false ∷◌) (common_whole xs ys (omega arith) (omega arith))

pub no_bits : (l : List Bool) → length l ≡ 0 → l ≡ []
no_bits [] e = refl
no_bits (x ∷ l) e = absurd (omega arith)
