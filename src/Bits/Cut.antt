-- ===== src/Bits/Cut.antt =====
-- Prefixes of the bits of a list of bytes, cut within a byte or between bytes.
use ton_labs_types.Base.{
  ℕ, zero, suc, ◌+◌, ◌*◌, ◌/◌, ◌^◌, ◌≤◌, ◌≡◌, sym, ap, ◌∙◌, List, [], ◌∷◌, ◌++◌, arith, length,
  take, drop, take-append_ge, take-append_le, take-append_eq, take-append-drop, length-take,
}
use ton_labs_types.Bits.{to_bits, bytes_bits, AllBytes}
use ton_labs_types.Bits.Laws.{length-to_bits, length-bytes_bits, bytes_bits-append, take-to_bits}

-- The first `8 * length front + k` bits, when the cut falls in the byte `x`.
pub take-bytes_bits :
    (front : List ℕ) (x : ℕ) (back : List ℕ) (k j : ℕ)
    → k + j ≡ 8
    → take (8 * length front + k) (bytes_bits (front ++ (x ∷ back)))
      ≡ bytes_bits front ++ to_bits k (x / 2 ^ j)
unfolding bytes_bits
take-bytes_bits front x back k j h =
    ap (take (8 * length front + k)) (bytes_bits-append front (x ∷ back))
    ∙ take-append_ge (8 * length front + k) (bytes_bits front) (to_bits 8 x ++ bytes_bits back)
        (omega (arith, length-bytes_bits front))
    ∙ ap (λ m. bytes_bits front ++ take m (to_bits 8 x ++ bytes_bits back)) {y = k}
        (omega (arith, length-bytes_bits front))
    ∙ ap (λ t. bytes_bits front ++ t)
        (take-append_le k (to_bits 8 x) (bytes_bits back) (omega (arith, length-to_bits 8 x))
          ∙ ap (λ w. take k (to_bits w x)) (sym h)
          ∙ take-to_bits k j x)

-- The bits of whole bytes.
pub take-bytes_bits_whole :
    (n : ℕ) (xs : List ℕ) → n ≤ length xs → take (8 * n) (bytes_bits xs) ≡ bytes_bits (take n xs)
take-bytes_bits_whole n xs h =
    ap (λ t. take (8 * n) (bytes_bits t)) (sym (take-append-drop n xs))
    ∙ ap (take (8 * n)) (bytes_bits-append (take n xs) (drop n xs))
    ∙ take-append_eq (8 * n) (bytes_bits (take n xs)) (bytes_bits (drop n xs))
        (omega (arith, length-bytes_bits (take n xs), length-take n xs))

pub AllBytes-append : (xs ys : List ℕ) → AllBytes xs → AllBytes ys → AllBytes (xs ++ ys)
AllBytes-append [] ys p q = q
AllBytes-append (x ∷ xs) ys p q = (p.0, AllBytes-append xs ys p.1 q)

pub AllBytes-front : (xs ys : List ℕ) → AllBytes (xs ++ ys) → AllBytes xs
AllBytes-front [] ys p = tt
AllBytes-front (x ∷ xs) ys p = (p.0, AllBytes-front xs ys p.1)

pub AllBytes-back : (xs ys : List ℕ) → AllBytes (xs ++ ys) → AllBytes ys
AllBytes-back [] ys p = p
AllBytes-back (x ∷ xs) ys p = AllBytes-back xs ys p.1

pub AllBytes-take : (n : ℕ) (xs : List ℕ) → AllBytes xs → AllBytes (take n xs)
AllBytes-take zero xs p = tt
AllBytes-take (suc n) [] p = tt
AllBytes-take (suc n) (x ∷ xs) p = (p.0, AllBytes-take n xs p.1)

pub AllBytes-drop : (n : ℕ) (xs : List ℕ) → AllBytes xs → AllBytes (drop n xs)
AllBytes-drop zero xs p = p
AllBytes-drop (suc n) [] p = tt
AllBytes-drop (suc n) (x ∷ xs) p = AllBytes-drop n xs p.1
