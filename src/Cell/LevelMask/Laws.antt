-- ===== src/Cell/LevelMask/Laws.antt =====
-- The index of a hash: how many levels below it have a hash of their own.
use ton_labs_types.Base.{
  ℕ, zero, suc, ◌+◌, ◌-◌, ◌/◌, ◌%◌, ◌^◌, ◌≤◌, ◌<◌, ◌≡◌, refl, sym, ap, ◌∙◌, true, min, bit_and,
  ◌==◌, arith, ==_iff,
}
use ton_labs_types.Base.Tables.{all_below, all_below_sound}
use ton_labs_types.Cell.LevelMask.{with_level, with_mask, level, calc_hash_index}

-- The bits of the mask below `count`.
unfoldable pub set_bits : ℕ → ℕ → ℕ
set_bits zero m = 0
set_bits (suc count) m = m / 2 ^ count % 2 + set_bits count m

-- An equation of two functions of a mask, below 8, and of an index, below `n`.
on_masks :
    (n : ℕ) (f g : ℕ → ℕ → ℕ)
    → all_below 8 (λ m. all_below n (λ i. f m i == g m i)) ≡ true
    → (m i : ℕ) → m < 8
    → i < n
    → f m i ≡ g m i
on_masks n f g h m i hm hi = (==_iff (f m i) (g m i)).0 (
    all_below_sound n (λ k. f m k == g m k) i
      (all_below_sound 8 (λ k. all_below n (λ j. f k j == g k j)) m h hm) hi)

-- The level of a mask is the number of its bits.
pub level-set_bits : (m : ℕ) → m < 8 → level m ≡ set_bits 3 m
unfolding level set_bits all_below
level-set_bits m h = on_masks 1 (λ k i. level k) (λ k i. set_bits 3 k) refl m 0 h (omega arith)

small_index : (m i : ℕ) → m < 8 → i < 4 → calc_hash_index m i ≡ set_bits i m
unfolding calc_hash_index set_bits all_below
small_index m i h k = on_masks 4 calc_hash_index (λ m' i'. set_bits i' m') refl m i h k

saturated : (m i : ℕ) → calc_hash_index m i ≡ calc_hash_index m (min i 3)
unfolding calc_hash_index
saturated m i =
    ap (λ k. level (with_mask (bit_and m (with_level k)))) {x = min i 3} {y = min (min i 3) 3}
      (omega arith)

-- For a mask below 8 the hash of level `i` stands at the index that counts the bits of the mask below
-- `i`, where an index past 3 is the index 3. The index is at most the level of the mask, and is this
-- level at 3 and past it.
pub calc_hash_index-set_bits :
    (m i : ℕ)
    → m < 8
    → (calc_hash_index m i ≡ set_bits (min i 3) m)
      × (calc_hash_index m i ≤ level m)
      × (calc_hash_index m (3 + i) ≡ level m)
calc_hash_index-set_bits m i h = (
  counted,
  omega (arith, counted, bounded m (min i 3) h (omega arith), level-set_bits m h),
  saturated m (3 + i)
      ∙ small_index m (min (3 + i) 3) h (omega arith)
      ∙ ap (λ k. set_bits k m) {y = 3} (omega arith)
      ∙ sym (level-set_bits m h),
)
  where
    counted : calc_hash_index m i ≡ set_bits (min i 3) m
    counted = saturated m i ∙ small_index m (min i 3) h (omega arith)

    bounded : (m i : ℕ) → m < 8 → i < 4 → set_bits i m ≤ set_bits 3 m
    bounded m i h k = omega (arith, excess m i h k)
      where
        excess : (m i : ℕ) → m < 8 → i < 4 → set_bits i m - set_bits 3 m ≡ 0
        excess m i h k =
            unfold set_bits all_below in
            on_masks 4 (λ m' i'. set_bits i' m' - set_bits 3 m') (λ m' i'. 0) refl m i h k
