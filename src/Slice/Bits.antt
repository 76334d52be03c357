-- ===== src/Slice/Bits.antt =====
-- `get_bits` reads the bits of the window, whether they stand in one byte or in two.
use ton_labs_types.Base.{
  ℕ, suc, ◌+◌, ◌-◌, ◌*◌, ◌/◌, ◌%◌, ◌^◌, ◌≤◌, ◌<◌, ◌≡◌, ◌≢◌, sym, ap, ◌∙◌, Bool, List, [], ◌∷◌, ◌++◌,
  append_assoc, arith, length, take, drop, get_elem?, get_elem?-front, get_elem?-second,
  window-window, split_at, length-append, drop-append_le, drop-append_ge, take-append_le,
  length-drop, subst,
}
use ton_labs_types.Types.{Result, ok, unwrap}
use ton_labs_types.Bits.{to_bits, bytes_bits, AllBytes}
use ton_labs_types.Bits.Laws.{
  length-to_bits, length-bytes_bits, bytes_bits-append, to_bits-mod, to_bits-pair, take-to_bits,
  drop-to_bits,
}
use ton_labs_types.Bits.Cut.{AllBytes-back}
use ton_labs_types.Bits.Fields.{bit_or-add}
use ton_labs_types.Cell.Tree as Tree
use ton_labs_types.Slice.{SliceData, data_at}
use ton_labs_types.Slice.Reading.{get_bits, two_bytes}
use ton_labs_types.Slice.Spec.{bits, IsWindow}
use native.Mathlib.Nat.{one-le-pow, div-lt_iff_lt-mul, mod-lt}
use native.Mathlib.Decide.{ℕ_discrete, dec_le}
use ton_labs_types.Bits.Laws.{pow_add, div_div_pow}

-- The read bits: their number and its digits.
abbrev pub Spells : ℕ → ℕ → List Bool → Type 0
Spells n v l = (v < 2 ^ n) × (to_bits n v ≡ l)

pub shifted_below : (w k v : ℕ) → v < 2 ^ (w + k) → v / 2 ^ k < 2 ^ w
shifted_below w k v h =
    (div-lt_iff_lt-mul (one-le-pow k 2 (omega arith))).1 (omega (arith, pow_add w k))

-- `n` bits from the bit `r` of a number of `w` bits, `k` bits before its end.
window_bits :
    (w r n k v : ℕ) → r + (n + k) ≡ w → take n (drop r (to_bits w v)) ≡ to_bits n (v / 2 ^ k)
window_bits w r n k v h =
    ap (λ m. take n (drop r (to_bits m v))) (sym h)
    ∙ ap (take n) (drop-to_bits r (n + k) v)
    ∙ take-to_bits n k v

pub drop_front :
    (front ys : List ℕ) (r : ℕ)
    → drop (8 * length front + r) (bytes_bits (front ++ ys)) ≡ drop r (bytes_bits ys)
drop_front front ys r =
    ap (drop (8 * length front + r)) (bytes_bits-append front ys)
    ∙ drop-append_ge (8 * length front + r) (bytes_bits front) (bytes_bits ys)
        (omega (arith, length-bytes_bits front))
    ∙ ap (λ m. drop m (bytes_bits ys)) {y = r} (omega (arith, length-bytes_bits front))

-- A cut of a list that is known to start with the digits of `v`.
pub in_front :
    (w r n k v : ℕ) (rest : List Bool)
    → r + (n + k) ≡ w
    → take n (drop r (to_bits w v ++ rest)) ≡ to_bits n (v / 2 ^ k)
in_front w r n k v rest h =
    ap (take n) (drop-append_le r (to_bits w v) rest (omega (arith, length-to_bits w v)))
    ∙ take-append_le n (drop r (to_bits w v)) rest
        (omega (arith, length-to_bits w v, length-drop r (to_bits w v)))
    ∙ window_bits w r n k v h

one_byte :
    (front : List ℕ) (x : ℕ) (back : List ℕ) (r n k : ℕ)
    → r + (n + k) ≡ 8
    → take n (drop (8 * length front + r) (bytes_bits (front ++ (x ∷ back))))
      ≡ to_bits n (x / 2 ^ k)
unfolding bytes_bits
one_byte front x back r n k h =
    ap (take n) (drop_front front (x ∷ back) r) ∙ in_front 8 r n k x (bytes_bits back) h

two_bytes_bits :
    (front : List ℕ) (x y : ℕ) (back : List ℕ) (r n k : ℕ)
    → y < 256
    → r + (n + k) ≡ 16
    → take n (drop (8 * length front + r) (bytes_bits (front ++ (x ∷ y ∷ back))))
      ≡ to_bits n ((x * 2 ^ 8 + y) / 2 ^ k)
unfolding bytes_bits
two_bytes_bits front x y back r n k b h =
    ap (take n) (
      drop_front front (x ∷ y ∷ back) r
      ∙ ap (drop r) (
          sym (append_assoc (to_bits 8 x) (to_bits 8 y) (bytes_bits back))
          ∙ ap (λ t. t ++ bytes_bits back) (sym (to_bits-pair 8 8 x y b))))
    ∙ in_front 16 r n k (x * 2 ^ 8 + y) (bytes_bits back) h

-- What the code computes from two bytes.
narrow :
    (w n j k : ℕ) → n + k ≡ 8 → to_bits n (w / 2 ^ j % 256 / 2 ^ k) ≡ to_bits n (w / 2 ^ (k + j))
narrow w n j k h =
    sym (take-to_bits n k (w / 2 ^ j % 256))
    ∙ ap (take n) (to_bits-mod (n + k) 8 (w / 2 ^ j) (omega arith))
    ∙ take-to_bits n k (w / 2 ^ j)
    ∙ ap (to_bits n) (div_div_pow w j k)

-- `n` bits of a slice from `offset`, in the data of its cell.
window :
    (s : SliceData) (offset n : ℕ)
    → s.data_start + offset + n ≤ s.data_end
    → take n (drop offset (bits s))
      ≡ take n (drop (s.data_start + offset) (bytes_bits (Tree.data_bytes s.cell)))
window s offset n h =
    window-window n offset (s.data_end - s.data_start) s.data_start
      (bytes_bits (Tree.data_bytes s.cell)) (omega arith)

-- The result is a number of `n` bits that spells `l`.
abbrev pub Reads : ℕ → List Bool → Result ℕ → Type 0
Reads n l r = (v : ℕ) × (r ≡ ok v) × Spells n v l

module _ (s : SliceData) (offset n : ℕ) (w : IsWindow s)
    (inside : s.data_start + offset + n ≤ s.data_end) (some_bits : 0 < n) (few : n ≤ 8) where
  abbrev q : ℕ
  q = (s.data_start + offset) / 8

  abbrev r : ℕ
  r = (s.data_start + offset) % 8

  in_range : q < length (Tree.data_bytes s.cell)
  in_range = omega (arith, w.inside)

  abbrev target : List Bool
  target = take n (drop offset (bits s))

  module _ (front : List ℕ) (x : ℕ) (back : List ℕ)
      (e : Tree.data_bytes s.cell ≡ front ++ (x ∷ back)) (l : length front ≡ q) where
    byte_here : data_at s q ≡ ok x
    unfolding data_at
    byte_here =
        ap (λ d. unwrap (get_elem? d q)) e
        ∙ ap (λ k. unwrap (get_elem? (front ++ (x ∷ back)) k)) (sym l)
        ∙ ap unwrap (get_elem?-front front x back)

    target_here : target ≡ take n (drop (8 * length front + r) (bytes_bits (front ++ (x ∷ back))))
    target_here =
        window s offset n inside
        ∙ ap (λ d. take n (drop (s.data_start + offset) (bytes_bits d))) e
        ∙ ap (λ m. take n (drop m (bytes_bits (front ++ (x ∷ back))))) {x = s.data_start + offset}
            (omega arith)

    bytes_here : AllBytes (x ∷ back)
    bytes_here = AllBytes-back front (x ∷ back) (subst AllBytes e w.all_bytes)

    within : r + n ≤ 8 → Reads n target (get_bits s offset n)
    within h = elim (ℕ_discrete r 0) [
      | yes z ↦ (
        x / 2 ^ (8 - r - n),
        whole z,
        (
          shifted_below n (8 - r - n) x (subst (λ k. x < 2 ^ k) {x = 8} (omega arith) bytes_here.0),
          sym here,
        ),
      )
      | no nz ↦ (
        x / 2 ^ (8 - r - n) % 2 ^ n,
        masked nz,
        (mod-lt _ (one-le-pow n 2 (omega arith)), to_bits-mod n n _ (omega arith) ∙ sym here),
      )
    ]
      where
        here : target ≡ to_bits n (x / 2 ^ (8 - r - n))
        here = target_here ∙ one_byte front x back r n (8 - r - n) (omega arith)

        whole : r ≡ 0 → get_bits s offset n ≡ ok (x / 2 ^ (8 - r - n))
        whole z = unfold get_bits in ground (arith, byte_here)

        masked : r ≢ 0 → get_bits s offset n ≡ ok (x / 2 ^ (8 - r - n) % 2 ^ n)
        masked nz = unfold get_bits in ground (arith, byte_here)

  module _ (front : List ℕ) (x y : ℕ) (back : List ℕ)
      (e : Tree.data_bytes s.cell ≡ front ++ (x ∷ y ∷ back)) (l : length front ≡ q) where
    next_byte : data_at s (q + 1) ≡ ok y
    unfolding data_at
    next_byte =
        ap (λ d. unwrap (get_elem? d (q + 1))) e
        ∙ ap (λ k. unwrap (get_elem? (front ++ (x ∷ y ∷ back)) k)) {y = suc (length front)}
            (omega (arith, l))
        ∙ ap unwrap (get_elem?-second front x y back)

    y_byte : y < 256
    y_byte = (bytes_here front x (y ∷ back) e l).1.0

    long_enough : suc q < length (Tree.data_bytes s.cell)
    long_enough = omega (arith, ap length e, length-append front (x ∷ y ∷ back), l)

    both : two_bytes s q ≡ ok (x * 2 ^ 8 + y)
    unfolding two_bytes
    both =
        ground
          (arith, byte_here front x (y ∷ back) e l, next_byte, long_enough, bit_or-add 8 x y y_byte)

    abbrev across_value : ℕ
    across_value = (x * 2 ^ 8 + y) / 2 ^ (8 - r) % 256 / 2 ^ (8 - n)

    across : 8 < r + n → Reads n target (get_bits s offset n)
    across h = (
      across_value,
      runs,
      (small, narrow (x * 2 ^ 8 + y) n (8 - r) (8 - n) (omega arith) ∙ sym here),
    )
      where
        runs : get_bits s offset n ≡ ok across_value
        runs = unfold get_bits in ground (arith, both)

        small : across_value < 2 ^ n
        small = shifted_below n (8 - n) ((x * 2 ^ 8 + y) / 2 ^ (8 - r) % 256) (
            subst (λ k. (x * 2 ^ 8 + y) / 2 ^ (8 - r) % 256 < 2 ^ k) {x = 8} (omega arith)
              (omega arith))

        here : target ≡ to_bits n ((x * 2 ^ 8 + y) / 2 ^ ((8 - n) + (8 - r)))
        here =
            target_here front x (y ∷ back) e l
            ∙ two_bytes_bits front x y back r n ((8 - n) + (8 - r)) y_byte (omega arith)

  -- If `offset` and `n` bits, 1 to 8, lie in the window, `get_bits` succeeds, with the number of
  -- `n` bits that spells them, wherever they stand in the bytes of the cell.
  pub get_bits-Reads : Reads n (take n (drop offset (bits s))) (get_bits s offset n)
  get_bits-Reads = elim (dec_le (r + n) 8) [
    | yes h ↦
        let (front, x, back, e, l) = split_at q (Tree.data_bytes s.cell) in_range in
        within front x back e l h
    | no h ↦ crosses (omega arith)
  ]
    where
      crosses : 8 < r + n → Reads n target (get_bits s offset n)
      crosses h =
          let (front, x, rest, e, l) = split_at q (Tree.data_bytes s.cell) in_range in
          with_rest front x rest e l
        where
          with_rest :
              (front : List ℕ) (x : ℕ) (rest : List ℕ)
              → Tree.data_bytes s.cell ≡ front ++ (x ∷ rest)
              → length front ≡ q
              → Reads n target (get_bits s offset n)
          with_rest front x [] e l =
              absurd (omega (arith, ap length e, length-append front (x ∷ []), l, w.inside))
          with_rest front x (y ∷ back) e l = across front x y back e l h
