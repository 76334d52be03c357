-- ===== src/Bits/Laws.antt =====
-- The laws of `to_bits` and `bytes_bits`: splitting, shifting, masking, lengths.
use ton_labs_types.Base.{
  ℕ, zero, suc, ◌+◌, ◌-◌, ◌*◌, ◌/◌, ◌%◌, ◌^◌, ◌≤◌, ◌<◌, ◌≡◌, refl, sym, ap, ap₂, ◌∙◌, false, List,
  [], ◌∷◌, ◌++◌, append_assoc, ◌==◌, arith, length, take, drop, replicate, length-append,
  take-append_eq, drop-append_eq,
}
use ton_labs_types.Bits.{to_bits, bytes_bits}
use native.Mathlib.Nat.{
  pow-suc, one-le-pow, div-div-eq-div-mul, mul_comm, add_comm, mul-div_cancel, mul-mod_left,
  mul-add-mod_self_right, le_refl, mod-eq_of_lt, div-eq_of_lt, mod-add-div', add-mul-div_right,
  zero-add, suc-add, zero-div,
}

pub length-to_bits : (w n : ℕ) → length (to_bits w n) ≡ w
unfolding to_bits
length-to_bits zero n = refl
length-to_bits (suc w) n = ap suc (length-to_bits w n)

pub length-bytes_bits : (xs : List ℕ) → length (bytes_bits xs) ≡ 8 * length xs
unfolding bytes_bits
length-bytes_bits [] = refl
length-bytes_bits (x ∷ xs) =
    omega
      (arith, length-append (to_bits 8 x) (bytes_bits xs), length-to_bits 8 x, length-bytes_bits xs)

pub bytes_bits-append : (xs ys : List ℕ) → bytes_bits (xs ++ ys) ≡ bytes_bits xs ++ bytes_bits ys
unfolding bytes_bits
bytes_bits-append [] ys = refl
bytes_bits-append (x ∷ xs) ys =
    ap (λ t. to_bits 8 x ++ t) (bytes_bits-append xs ys)
    ∙ sym (append_assoc (to_bits 8 x) (bytes_bits xs) (bytes_bits ys))

pub pow_add : (a b : ℕ) → 2 ^ (a + b) ≡ 2 ^ a * 2 ^ b
pow_add zero b = rw zero-add (omega arith)
pow_add (suc a) b =
    rw (suc-add, pow-suc, pow-suc) (omega (arith, ap (λ (t : ℕ). t * 2) (pow_add a b)))

pub div_div_pow : (n b a : ℕ) → n / 2 ^ b / 2 ^ a ≡ n / 2 ^ (a + b)
div_div_pow n b a =
    div-div-eq-div-mul n (2 ^ b) (2 ^ a)
    ∙ ap (λ (k : ℕ). n / k) (mul_comm (2 ^ b) (2 ^ a) ∙ sym (pow_add a b))

pub to_bits-split : (a b n : ℕ) → to_bits (a + b) n ≡ to_bits a (n / 2 ^ b) ++ to_bits b n
unfolding to_bits
to_bits-split zero b n = rw zero-add
to_bits-split (suc a) b n =
    rw (suc-add)
      (ap₂ ◌∷◌ (ap (λ (t : ℕ). t % 2 == 1) (sym (div_div_pow n b a))) (to_bits-split a b n))

pow_as_product : (k w : ℕ) → w < k → 2 ^ k ≡ 2 ^ (k - w - 1) * 2 * 2 ^ w
pow_as_product k w h =
    ap (λ (t : ℕ). 2 ^ t) (omega arith) ∙ pow_add (k - w - 1) (suc w) ∙ rw pow-suc (omega arith)

bit_of_sum : (r m p : ℕ) → 0 < p → (r + m * 2 * p) / p % 2 ≡ r / p % 2
bit_of_sum r m p h = rw (add-mul-div_right r (m * 2) h) (omega arith)

bit_mod : (n w k : ℕ) → w < k → n % 2 ^ k / 2 ^ w % 2 ≡ n / 2 ^ w % 2
bit_mod n w k h = sym (
    ap (λ (t : ℕ). t / 2 ^ w % 2) as_sum
    ∙ bit_of_sum (n % 2 ^ k) (n / 2 ^ k * 2 ^ (k - w - 1)) (2 ^ w) (one-le-pow w 2 (omega arith)))
  where
    as_sum : n ≡ n % 2 ^ k + n / 2 ^ k * 2 ^ (k - w - 1) * 2 * 2 ^ w
    as_sum =
        omega (arith, mod-add-div' n (2 ^ k), ap (λ (t : ℕ). n / 2 ^ k * t) (pow_as_product k w h))

pub to_bits-mod : (w k n : ℕ) → w ≤ k → to_bits w (n % 2 ^ k) ≡ to_bits w n
unfolding to_bits
to_bits-mod zero k n h = refl
to_bits-mod (suc w) k n h =
    ap₂ ◌∷◌ (ap (λ b. b == 1) (bit_mod n w k h)) (to_bits-mod w k n (omega arith))

pub to_bits-zero : (w : ℕ) → to_bits w 0 ≡ replicate w false
unfolding to_bits
to_bits-zero zero = refl
to_bits-zero (suc w) = ap₂ ◌∷◌ (ap (λ (t : ℕ). t % 2 == 1) (zero-div (2 ^ w))) (to_bits-zero w)

-- A left shift by `b` appends `b` zeros, and what stays is a right shift.
pub to_bits-shift_left :
    (a b n : ℕ) → to_bits (a + b) (n * 2 ^ b) ≡ to_bits a n ++ replicate b false
to_bits-shift_left a b n =
    to_bits-split a b (n * 2 ^ b)
    ∙ ap₂ (λ t u. to_bits a t ++ u) (mul-div_cancel n (one-le-pow b 2 (omega arith)))
        (sym (to_bits-mod b b (n * 2 ^ b) (le_refl b))
          ∙ ap (to_bits b) (mul-mod_left n (2 ^ b))
          ∙ to_bits-zero b)

pub take-to_bits : (a b n : ℕ) → take a (to_bits (a + b) n) ≡ to_bits a (n / 2 ^ b)
take-to_bits a b n =
    ap (take a) (to_bits-split a b n) ∙ take-append_eq a _ _ (length-to_bits a (n / 2 ^ b))

pub drop-to_bits : (a b n : ℕ) → drop a (to_bits (a + b) n) ≡ to_bits b n
drop-to_bits a b n =
    ap (drop a) (to_bits-split a b n) ∙ drop-append_eq a _ _ (length-to_bits a (n / 2 ^ b))

-- Two numbers side by side.
pub to_bits-pair :
    (a b m n : ℕ) → n < 2 ^ b → to_bits (a + b) (m * 2 ^ b + n) ≡ to_bits a m ++ to_bits b n
to_bits-pair a b m n h =
    to_bits-split a b (m * 2 ^ b + n)
    ∙ ap₂ (λ t u. to_bits a t ++ u)
        (ap (λ (t : ℕ). t / 2 ^ b) (add_comm (m * 2 ^ b) n)
          ∙ add-mul-div_right n m (one-le-pow b 2 (omega arith))
          ∙ ap (λ (t : ℕ). t + m) (div-eq_of_lt h)
          ∙ zero-add m)
        (sym (to_bits-mod b b (m * 2 ^ b + n) (le_refl b))
          ∙ ap (to_bits b) (mul-add-mod_self_right m (2 ^ b) n ∙ mod-eq_of_lt h))
