-- ===== src/Tag/RoundTrip.antt =====
-- `append_tag` writes the bit string, a one and zeros, and `find_tag` reads its length back.
use ton_labs_types.Base.{
  ℕ, suc, ◌+◌, ◌-◌, ◌*◌, ◌/◌, ◌%◌, ◌^◌, ◌≤◌, ◌<◌, ◌≡◌, ◌≢◌, subst, refl, sym, ap, ap₂, ◌∙◌, true,
  false, List, [], ◌∷◌, ◌++◌, append-nil, append_assoc, arith, length, take, replicate, split_at,
  take_front_suc, map_last, map_last-append-one, length-take, ==_iff, ◌==◌, ltb,
}
use ton_labs_types.Base.Tables.{all_below, all_below_sound}
use ton_labs_types.Bits.{to_bits, bytes_bits, AllBytes}
use ton_labs_types.Bits.Laws.{
  length-bytes_bits, bytes_bits-append, to_bits-pair, to_bits-shift_left,
}
use ton_labs_types.Bits.Cut.{
  take-bytes_bits, take-bytes_bits_whole, AllBytes-append, AllBytes-front, AllBytes-back,
  AllBytes-take,
}
use native.Mathlib.Nat.{pow-suc, one-le-pow}
use native.Mathlib.Decide.{ℕ_discrete}
use ton_labs_types.Tag.{is_empty, tag_byte, find_tag, append_tag}
use ton_labs_types.Tag.Find.{last_one, last_one-tag, or_zero, find_tag-last_one}

-- The byte with its tag as arithmetic.
tag_byte_table :
    all_below 8
      (λ k. all_below 256 (λ x. tag_byte k x == x / 2 ^ (8 - k) * 2 ^ (8 - k) + 2 ^ (7 - k)))
    ≡ true
unfolding all_below tag_byte
tag_byte_table = refl

tag_byte_sum :
    (k j x : ℕ) → k + suc j ≡ 8 → x < 256 → tag_byte k x ≡ x / 2 ^ suc j * 2 ^ suc j + 2 ^ j
tag_byte_sum k j x h b =
    (==_iff _ _).0 at_x ∙ ap₂ (λ (a c : ℕ). x / 2 ^ a * 2 ^ a + 2 ^ c) to_suc to_j
  where
    to_suc : 8 - k ≡ suc j
    to_suc = omega arith

    to_j : 7 - k ≡ j
    to_j = omega arith

    at_x : (tag_byte k x == x / 2 ^ (8 - k) * 2 ^ (8 - k) + 2 ^ (7 - k)) ≡ true
    at_x = all_below_sound 256 _ x (all_below_sound 8 _ k tag_byte_table (omega arith)) b

one_bit : (j : ℕ) → to_bits (suc j) (2 ^ j) ≡ true ∷ replicate j false
unfolding to_bits
one_bit j = ap₂ to_bits width value ∙ to_bits-shift_left 1 j 1
  where
    width : suc j ≡ 1 + j
    width = omega arith

    value : 2 ^ j ≡ 1 * 2 ^ j
    value = omega arith

tag_byte_bits :
    (k j x : ℕ)
    → k + suc j ≡ 8
    → 0 < k
    → x < 256
    → to_bits 8 (tag_byte k x) ≡ to_bits k (x / 2 ^ suc j) ++ (true ∷ replicate j false)
tag_byte_bits k j x h p b =
    ap₂ to_bits (sym h) (tag_byte_sum k j x h b)
    ∙ to_bits-pair k (suc j) (x / 2 ^ suc j) (2 ^ j) (rw pow-suc (omega (arith, one-le-pow j 2)))
    ∙ ap (λ t. to_bits k (x / 2 ^ suc j) ++ t) (one_bit j)

is_empty-append : (front : List ℕ) (x : ℕ) (back : List ℕ) → is_empty (front ++ (x ∷ back)) ≡ false
unfolding is_empty
is_empty-append [] x back = refl
is_empty-append (y ∷ front) x back = refl

append_tag_partial :
    (xs : List ℕ) (bits : ℕ)
    → is_empty xs ≡ false
    → bits % 8 ≢ 0
    → append_tag xs bits ≡ map_last (tag_byte (bits % 8)) (take (1 + bits / 8) xs)
unfolding append_tag
append_tag_partial xs bits e ne = ground arith

append_tag_whole :
    (xs : List ℕ) (bits : ℕ) → bits % 8 ≡ 0 → append_tag xs bits ≡ take (bits / 8) xs ++ (0x80 ∷ [])
unfolding append_tag
append_tag_whole xs bits e = rw e

append_tag_cut :
    (front : List ℕ) (x : ℕ) (back : List ℕ) (bits : ℕ)
    → length front ≡ bits / 8
    → bits % 8 ≢ 0
    → append_tag (front ++ (x ∷ back)) bits ≡ front ++ (tag_byte (bits % 8) x ∷ [])
append_tag_cut front x back bits l ne =
    append_tag_partial (front ++ (x ∷ back)) bits (is_empty-append front x back) ne
    ∙ ap (λ n. map_last (tag_byte (bits % 8)) (take n (front ++ (x ∷ back))))
        {y = suc (length front)} (omega arith)
    ∙ ap (map_last (tag_byte (bits % 8))) (take_front_suc front x back)
    ∙ map_last-append-one (tag_byte (bits % 8)) front x

append_tag-bits_whole :
    (xs : List ℕ) (bits : ℕ)
    → bits ≤ 8 * length xs
    → bits % 8 ≡ 0
    → bytes_bits (append_tag xs bits)
      ≡ take bits (bytes_bits xs) ++ (true ∷ replicate (7 - bits % 8) false)
unfolding bytes_bits to_bits
append_tag-bits_whole xs bits h e =
    ap bytes_bits (append_tag_whole xs bits e)
    ∙ bytes_bits-append (take (bits / 8) xs) (0x80 ∷ [])
    ∙ ap₂ (λ t n. t ++ (true ∷ replicate n false)) front seven
  where
    front : bytes_bits (take (bits / 8) xs) ≡ take bits (bytes_bits xs)
    front =
        sym (take-bytes_bits_whole (bits / 8) xs (omega arith))
        ∙ ap (λ n. take n (bytes_bits xs)) (omega arith)

    seven : 7 ≡ 7 - bits % 8
    seven = omega arith

append_tag-bits_cut :
    (front : List ℕ) (x : ℕ) (back : List ℕ) (bits : ℕ)
    → length front ≡ bits / 8
    → bits % 8 ≢ 0
    → x < 256
    → bytes_bits (append_tag (front ++ (x ∷ back)) bits)
      ≡ take bits (bytes_bits (front ++ (x ∷ back))) ++ (true ∷ replicate (7 - bits % 8) false)
unfolding bytes_bits
append_tag-bits_cut front x back bits l ne b =
    ap bytes_bits (append_tag_cut front x back bits l ne)
    ∙ bytes_bits-append front (tag_byte k x ∷ [])
    ∙ ap (λ t. bytes_bits front ++ t)
        (append-nil (to_bits 8 (tag_byte k x)) ∙ tag_byte_bits k j x (omega arith) (omega arith) b)
    ∙ sym (append_assoc (bytes_bits front) (to_bits k (x / 2 ^ suc j)) (true ∷ replicate j false))
    ∙ ap (λ t. t ++ (true ∷ replicate j false))
        (sym (take-bytes_bits front x back k (suc j) (omega arith))
          ∙ ap (λ n. take n (bytes_bits (front ++ (x ∷ back)))) (omega arith))
  where
    k : ℕ
    k = bits % 8

    j : ℕ
    j = 7 - bits % 8

-- With `bits` within the data, the tagged data spells the first `bits` bits, a one, and zeros up
-- to the next byte boundary.
pub append_tag-bits :
    (xs : List ℕ) (bits : ℕ)
    → AllBytes xs
    → bits ≤ 8 * length xs
    → bytes_bits (append_tag xs bits)
      ≡ take bits (bytes_bits xs) ++ (true ∷ replicate (7 - bits % 8) false)
append_tag-bits xs bits a h = elim (ℕ_discrete (bits % 8) 0) [
  | yes e ↦ append_tag-bits_whole xs bits h e
  | no ne ↦
      let (front, x, back, e, l) = split_at (bits / 8) xs (omega arith) in
      rw e (
        append_tag-bits_cut front x back bits l ne
          (AllBytes-back front (x ∷ back) (subst AllBytes e a)).0)
]

tag_byte-lt_table : all_below 8 (λ k. all_below 256 (λ x. ltb (tag_byte k x) 256)) ≡ true
unfolding all_below tag_byte
tag_byte-lt_table = refl

tag_byte-lt : (k x : ℕ) → 0 < k → k < 8 → x < 256 → tag_byte k x < 256
tag_byte-lt k x p q b =
    let t = all_below_sound 256 _ x (all_below_sound 8 _ k tag_byte-lt_table q) b in ground arith

pub append_tag-AllBytes :
    (xs : List ℕ) (bits : ℕ) → AllBytes xs → bits ≤ 8 * length xs → AllBytes (append_tag xs bits)
append_tag-AllBytes xs bits a h = elim (ℕ_discrete (bits % 8) 0) [
  | yes e ↦ rw (append_tag_whole xs bits e) (
      AllBytes-append (take (bits / 8) xs) (0x80 ∷ []) (AllBytes-take (bits / 8) xs a)
        (omega arith))
  | no ne ↦
      let (front, x, back, e, l) = split_at (bits / 8) xs (omega arith) in
      let b = subst AllBytes e a in
      rw (e, append_tag_cut front x back bits l ne)
        (AllBytes-append front (tag_byte (bits % 8) x ∷ []) (AllBytes-front front (x ∷ back) b) (
          tag_byte-lt (bits % 8) x (omega arith) (omega arith) (AllBytes-back front (x ∷ back) b).0,
          tt,
        ))
]

-- Where the bits lie within the data, `find_tag` gives back the number of bits with which
-- `append_tag` was called.
pub find_tag-append_tag :
    (xs : List ℕ) (bits : ℕ)
    → AllBytes xs
    → bits ≤ 8 * length xs
    → find_tag (append_tag xs bits) ≡ bits
find_tag-append_tag xs bits a h =
    find_tag-last_one (append_tag xs bits) (append_tag-AllBytes xs bits a h)
    ∙ ap (λ b. or_zero (last_one b)) (append_tag-bits xs bits a h)
    ∙ ap or_zero (last_one-tag (take bits (bytes_bits xs)) (7 - bits % 8))
    ∙ omega (arith, length-take bits (bytes_bits xs), length-bytes_bits xs)
