-- ===== src/Builder/Cut.antt =====
-- `cut_bytes`, the end of `with_raw` and of each append: the first bits, padded with zeros.
use ton_labs_types.Base.{
  ℕ, suc, ◌+◌, ◌-◌, ◌*◌, ◌/◌, ◌%◌, ◌^◌, ◌≤◌, ◌<◌, ◌≡◌, ◌≢◌, subst, sym, ap, ap₂, ◌∙◌, false, List,
  [], ◌∷◌, ◌++◌, append-nil, append_assoc, arith, length, take, replicate, split_at, take_front_suc,
  map_last, map_last-append-one, pop, pop-append-one, some, length-append, length-take,
  take-append_eq,
}
use ton_labs_types.Types.{ok}
use ton_labs_types.Bits.{to_bits, bytes_bits, AllBytes}
use ton_labs_types.Bits.Laws.{bytes_bits-append, to_bits-shift_left, length-bytes_bits}
use ton_labs_types.Bits.Cut.{
  take-bytes_bits, take-bytes_bits_whole, AllBytes-append, AllBytes-front, AllBytes-back,
  AllBytes-take,
}
use ton_labs_types.Builder.{clear_low, cut_bytes, trimmed}
use native.Mathlib.Nat.{div-mul-le_self, mod-eq_of_lt}
use native.Mathlib.Decide.{ℕ_discrete}

-- Bytes for `n` bits, and the zeros behind the bits in the last one.
abbrev pub bytes_for : ℕ → ℕ
bytes_for n = (n + 7) / 8

abbrev pub padding : ℕ → ℕ
padding n = (8 - n % 8) % 8

clear_low_lem : (k x : ℕ) → x < 256 → clear_low k x ≡ x / 2 ^ k * 2 ^ k
unfolding clear_low
clear_low_lem k x b = mod-eq_of_lt (omega (arith, div-mul-le_self x (2 ^ k)))

pub cut_whole : (xs : List ℕ) (n : ℕ) → n % 8 ≡ 0 → cut_bytes xs n ≡ take (n / 8) xs
unfolding cut_bytes
cut_whole xs n e = rw e

pub cut_within :
    (front : List ℕ) (x : ℕ) (back : List ℕ) (n : ℕ)
    → length front ≡ n / 8
    → n % 8 ≢ 0
    → cut_bytes (front ++ (x ∷ back)) n ≡ front ++ (clear_low (8 - n % 8) x ∷ [])
cut_within front x back n l ne =
    cut_partial (front ++ (x ∷ back)) n ne
    ∙ ap (λ m. map_last (clear_low (8 - n % 8)) (take m (front ++ (x ∷ back))))
        {y = suc (length front)} (omega arith)
    ∙ ap (map_last (clear_low (8 - n % 8))) (take_front_suc front x back)
    ∙ map_last-append-one (clear_low (8 - n % 8)) front x
  where
    cut_partial :
        (xs : List ℕ) (n : ℕ)
        → n % 8 ≢ 0
        → cut_bytes xs n ≡ map_last (clear_low (8 - n % 8)) (take (1 + n / 8) xs)
    cut_partial xs n ne = unfold cut_bytes in ground arith

clear_low_bits :
    (k j x : ℕ)
    → k + j ≡ 8
    → x < 256
    → to_bits 8 (clear_low j x) ≡ to_bits k (x / 2 ^ j) ++ replicate j false
clear_low_bits k j x h b =
    ap₂ to_bits (sym h) (clear_low_lem j x b) ∙ to_bits-shift_left k j (x / 2 ^ j)

cut_bits_within :
    (front : List ℕ) (x : ℕ) (back : List ℕ) (n : ℕ)
    → length front ≡ n / 8
    → n % 8 ≢ 0
    → x < 256
    → bytes_bits (cut_bytes (front ++ (x ∷ back)) n)
      ≡ take n (bytes_bits (front ++ (x ∷ back))) ++ replicate (padding n) false
unfolding bytes_bits
cut_bits_within front x back n l ne b =
    ap bytes_bits (cut_within front x back n l ne)
    ∙ bytes_bits-append front (clear_low (8 - k) x ∷ [])
    ∙ ap (λ t. bytes_bits front ++ t)
        (append-nil (to_bits 8 (clear_low (8 - k) x)) ∙ clear_low_bits k (8 - k) x (omega arith) b)
    ∙ sym (append_assoc (bytes_bits front) (to_bits k (x / 2 ^ (8 - k))) (replicate (8 - k) false))
    ∙ ap₂ (λ t m. t ++ replicate m false) kept pad
  where
    k : ℕ
    k = n % 8

    kept :
        bytes_bits front ++ to_bits k (x / 2 ^ (8 - k)) ≡ take n (bytes_bits (front ++ (x ∷ back)))
    kept =
        sym (take-bytes_bits front x back k (8 - k) (omega arith))
        ∙ ap (λ m. take m (bytes_bits (front ++ (x ∷ back)))) (omega arith)

    pad : 8 - k ≡ padding n
    pad = omega arith

-- `truncate` to one byte past the front, then `pop`.
pub pop-take :
    (front : List ℕ) (x : ℕ) (back : List ℕ) (m : ℕ)
    → m ≡ suc (length front)
    → pop (take m (front ++ (x ∷ back))) ≡ some (front, x)
pop-take front x back m e =
    ap (λ k. pop (take k (front ++ (x ∷ back)))) e
    ∙ ap pop (take_front_suc front x back)
    ∙ pop-append-one front x

trimmed_within :
    (front : List ℕ) (x : ℕ) (back : List ℕ) (n : ℕ)
    → length front ≡ n / 8
    → n % 8 ≢ 0
    → trimmed (front ++ (x ∷ back)) n ≡ ok (front ++ (clear_low (8 - n % 8) x ∷ []))
unfolding trimmed
trimmed_within front x back n l ne = ground (arith, pop-take front x back (n / 8 + 1))

module _ (xs : List ℕ) (n : ℕ) (fits : n ≤ 8 * length xs) where
  -- The bytes spell the first `n` bits and then zeros: no bit behind the cut is left.
  pub cut_bytes-bits :
      AllBytes xs
      → bytes_bits (cut_bytes xs n) ≡ take n (bytes_bits xs) ++ replicate (padding n) false
  cut_bytes-bits a = elim (ℕ_discrete (n % 8) 0) [
    | yes e ↦
        ap bytes_bits (cut_whole xs n e)
        ∙ sym (take-bytes_bits_whole (n / 8) xs (omega arith))
        ∙ ap (λ m. take m (bytes_bits xs)) {y = n} (omega arith)
        ∙ sym (append-nil (take n (bytes_bits xs)))
        ∙ ap (λ m. take n (bytes_bits xs) ++ replicate m false) {x = 0} {y = padding n}
            (omega arith)
    | no ne ↦
        let (front, x, back, e, l) = split_at (n / 8) xs (omega arith) in
        rw e (
          cut_bits_within front x back n l ne
            (AllBytes-back front (x ∷ back) (subst AllBytes e a)).0)
  ]

  pub length-cut_bytes : length (cut_bytes xs n) ≡ bytes_for n
  length-cut_bytes = elim (ℕ_discrete (n % 8) 0) [
    | yes e ↦ rw (cut_whole xs n e) (omega (arith, length-take (n / 8) xs))
    | no ne ↦
        let (front, x, back, e, l) = split_at (n / 8) xs (omega arith) in
        rw (e, cut_within front x back n l ne)
          (omega (arith, length-append front (clear_low (8 - n % 8) x ∷ [])))
  ]

  pub cut_bytes-AllBytes : AllBytes xs → AllBytes (cut_bytes xs n)
  cut_bytes-AllBytes a = elim (ℕ_discrete (n % 8) 0) [
    | yes e ↦ rw (cut_whole xs n e) (AllBytes-take (n / 8) xs a)
    | no ne ↦
        let (front, x, back, e, l) = split_at (n / 8) xs (omega arith) in
        let b = subst AllBytes e a in
        rw (e, cut_within front x back n l ne)
          (AllBytes-append front (clear_low (8 - n % 8) x ∷ []) (AllBytes-front front (x ∷ back) b)
            (unfold clear_low in omega arith, tt))
  ]

  pub take-cut_bytes : AllBytes xs → take n (bytes_bits (cut_bytes xs n)) ≡ take n (bytes_bits xs)
  take-cut_bytes a =
      ap (take n) (cut_bytes-bits a)
      ∙ take-append_eq n (take n (bytes_bits xs)) (replicate (padding n) false)
          (omega (arith, length-take n (bytes_bits xs), length-bytes_bits xs))

  -- The end of `append_with_double_shifting` does the same cut.
  pub trimmed-cut_bytes : trimmed xs n ≡ ok (cut_bytes xs n)
  trimmed-cut_bytes = elim (ℕ_discrete (n % 8) 0) [
    | yes e ↦ rw (cut_whole xs n e) (unfold trimmed in rw e)
    | no ne ↦
        let (front, x, back, e, l) = split_at (n / 8) xs (omega arith) in
        rw (e, cut_within front x back n l ne) (trimmed_within front x back n l ne)
  ]
