-- ===== src/Slice/Integers.antt =====
-- The reads of integers: bytes that are put side by side, and a part of a byte behind them.
use ton_labs_types.Base.{
  ℕ, ◌+◌, ◌-◌, ◌*◌, ◌/◌, ◌%◌, ◌^◌, bit_or, ◌≤◌, ◌<◌, ◌≡◌, ◌≢◌, ap, ◌∙◌, subst, false, arith, take,
  ltb,
}
use ton_labs_types.Types.{Result, ok}
use ton_labs_types.Slice.{SliceData, remaining_bits, move_by}
use ton_labs_types.Slice.Reading.{
  gather, get_bits, get_next_int, next_bytes, get_next_u16, get_next_u32, get_next_u64,
  get_next_u128,
}
use ton_labs_types.Slice.Spec.{bits, IsWindow}
use ton_labs_types.Slice.Bits.{Spells, get_bits-Reads}
use ton_labs_types.Slice.Window.{Moved, moved, move_by-Moved}
use native.Mathlib.Nat.{one-le-pow, mul-div_cancel}
use native.Mathlib.Decide.{ℕ_discrete}
use ton_labs_types.Slice.Gather.{join, pair, section, sections, gathered}

-- The result is a number of the first `n` bits, and the slice behind them.
abbrev pub ReadsNext : SliceData → ℕ → Result (SliceData × ℕ) → Type 0
ReadsNext s n r =
    (v : ℕ) × (r ≡ ok (moved s n, v)) × Spells n v (take n (bits s)) × Moved s n (moved s n)

module _ (s : SliceData) (w : IsWindow s) where
  next_bytes-ReadsNext :
      (count : ℕ)
      → s.data_start + 8 * count ≤ s.data_end
      → ReadsNext s (8 * count) (next_bytes count s)
  unfolding next_bytes
  next_bytes-ReadsNext count inside =
      let (u, runs, spelled) = gathered s w count count (omega arith) inside in
      let (moves, behind) = move_by-Moved s w (8 * count) inside in
      (u, run u runs moves, spelled, behind)
    where
      run :
          (u : ℕ)
          → gather s count 0 count 0 ≡ ok (u * 2 ^ (8 * (count - count)))
          → move_by s (8 * count) ≡ ok (moved s (8 * count))
          → next_bytes count s ≡ ok (moved s (8 * count), u)
      run u runs moves =
          rw (runs, moves)
            (ap (λ t. ok (moved s (8 * count), t))
              (ap (λ (k : ℕ). u * 2 ^ (8 * k)) {y = 0} (omega arith) ∙ omega arith))

  -- In a window of at least 128 bits, each read of an unsigned integer of 16, 32, 64 or 128 bits
  -- returns the number that the first bits of the window spell, and the slice behind them.
  get_integers :
      s.data_start + 128 ≤ s.data_end
      → ReadsNext s 16 (get_next_u16 s)
        × ReadsNext s 32 (get_next_u32 s)
        × ReadsNext s 64 (get_next_u64 s)
        × ReadsNext s 128 (get_next_u128 s)
  unfolding get_next_u16 get_next_u32 get_next_u64 get_next_u128
  get_integers inside = (
    next_bytes-ReadsNext 2 (omega arith),
    next_bytes-ReadsNext 4 (omega arith),
    next_bytes-ReadsNext 8 (omega arith),
    next_bytes-ReadsNext 16 inside,
  )

  module _ (n : ℕ) (some_bits : n ≢ 0) (few : n ≤ 64) (inside : s.data_start + n ≤ s.data_end) where
    enough : ltb (remaining_bits s) n ≡ false
    unfolding remaining_bits
    enough = ground arith

    run_whole :
        (u : ℕ)
        → n % 8 ≡ 0
        → gather s 8 0 (n / 8) 0 ≡ ok (u * 2 ^ (8 * (8 - n / 8)))
        → move_by s n ≡ ok (moved s n)
        → get_next_int s n ≡ ok (moved s n, u)
    unfolding get_next_int
    run_whole u e runs moves = ground (arith, enough, runs, moves, number)
      where
        number : u * 2 ^ (8 * (8 - n / 8)) / 2 ^ (64 - n) ≡ u
        number =
            ap (λ (k : ℕ). u * 2 ^ k / 2 ^ (64 - n)) {y = 64 - n} (omega arith)
            ∙ mul-div_cancel u (one-le-pow (64 - n) 2 (omega arith))

    run_part :
        (u v : ℕ)
        → n % 8 ≢ 0
        → v < 2 ^ (n % 8)
        → gather s 8 0 (n / 8) 0 ≡ ok (u * 2 ^ (8 * (8 - n / 8)))
        → get_bits s (n / 8 * 8) (n % 8) ≡ ok v
        → move_by s n ≡ ok (moved s n)
        → get_next_int s n ≡ ok (moved s n, u * 2 ^ (n % 8) + v)
    unfolding get_next_int
    run_part u v ne small runs part moves = ground (arith, enough, runs, part, moves, number)
      where
        place : 8 * (7 - n / 8) + (8 - n % 8) ≡ 64 - n
        place = omega arith

        number :
            bit_or (u * 2 ^ (8 * (8 - n / 8))) (v * 2 ^ (8 * (7 - n / 8) + (8 - n % 8)))
              / 2 ^ (64 - n)
            ≡ u * 2 ^ (n % 8) + v
        number =
            ap (λ k. bit_or (u * 2 ^ k) (v * 2 ^ (8 * (7 - n / 8) + (8 - n % 8))) / 2 ^ (64 - n))
              {y = n % 8 + (64 - n)} (omega arith)
            ∙ ap (λ k. bit_or (u * 2 ^ (n % 8 + (64 - n))) (v * 2 ^ k) / 2 ^ (64 - n)) place
            ∙ ap (λ (t : ℕ). t / 2 ^ (64 - n)) (join u v (n % 8) (64 - n) small)
            ∙ mul-div_cancel (u * 2 ^ (n % 8) + v) (one-le-pow (64 - n) 2 (omega arith))

    -- `get_next_int` of 1 to 64 bits that the window holds returns the number that they spell, and
    -- the slice behind them, whether or not the bits are whole bytes.
    pub get_next_int-ReadsNext : ReadsNext s n (get_next_int s n)
    get_next_int-ReadsNext =
        let (u, runs, spelled) = gathered s w 8 (n / 8) (omega arith) (omega arith) in
        let (moves, behind) = move_by-Moved s w n inside in
        elim (ℕ_discrete (n % 8) 0) [
          | yes e ↦ (
            u,
            run_whole u e runs moves,
            subst (λ k. Spells k u (take k (bits s))) {x = 8 * (n / 8)} (omega arith) spelled,
            behind,
          )
          | no ne ↦
              let (v, part, digits) =
                get_bits-Reads s (n / 8 * 8) (n % 8) w (omega arith) (omega arith) (omega arith) in
              (
                u * 2 ^ (n % 8) + v,
                run_part u v ne digits.0 runs part moves,
                together u v spelled digits,
                behind,
              )
        ]
      where
        together :
            (u v : ℕ)
            → Spells (8 * (n / 8)) u (take (8 * (n / 8)) (bits s))
            → Spells (n % 8) v (section s w (n / 8 * 8) (n % 8))
            → Spells n (u * 2 ^ (n % 8) + v) (take n (bits s))
        together u v p q =
            subst (λ k. Spells k (u * 2 ^ (n % 8) + v) (take k (bits s))) {x = 8 * (n / 8) + n % 8}
              (omega arith)
              (subst (Spells (8 * (n / 8) + n % 8) (u * 2 ^ (n % 8) + v))
                (sections s w 0 (8 * (n / 8)) (n % 8))
                (pair (8 * (n / 8)) (n % 8) u v _ _ p (
                  subst (λ k. Spells (n % 8) v (section s w k (n % 8))) {x = n / 8 * 8}
                    (omega arith) q)))
