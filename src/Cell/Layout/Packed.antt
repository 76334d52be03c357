-- ===== src/Cell/Layout/Packed.antt =====
-- The packed form of an ordinary cell that stores no hashes: its data and its length are read back.
use ton_labs_types.Base.{
  ℕ, ◌+◌, ◌*◌, ◌/◌, ◌%◌, ◌≤◌, ◌<◌, ◌≡◌, ◌≢◌, refl, ap, ap₂, ◌∙◌, Bool, true, false, not, ◌&&◌, List,
  ◌∷◌, bit_and, ◌==◌, arith, if◌then◌else◌, length, take, drop, take_all, length-take, Bool-cases,
  inl, inr,
}
use ton_labs_types.Base.Tables.{all_below, all_below_sound}
use ton_labs_types.Tag.{find_tag}
use ton_labs_types.Cell.CellType.{ordinary}
use ton_labs_types.Cell.Layout.{
  calc_d1, calc_d2, level_mask, store_hashes, absent, cell_data_len, data_offset, cell_data,
  bit_len, cell_type,
}
use ton_labs_types.Cell.Layout.Build.{bytes_for}
use ton_labs_types.Cell.Layout.Fields.{descriptors_lem}

-- The low bit of the second descriptor tells whether the last byte is whole.
whole_flag : ℕ → Bool
whole_flag n =
    if bit_and (calc_d2 n) 1 == 0
    then (calc_d2 n / 2 * 8 == n) && (n % 8 == 0)
    else not (n % 8 == 0)

whole_flag_table : all_below 1024 whole_flag ≡ true
unfolding all_below whole_flag calc_d2
whole_flag_table = refl

whole_length : (n : ℕ) → n < 1024 → (bit_and (calc_d2 n) 1 == 0) ≡ true → calc_d2 n / 2 * 8 ≡ n
unfolding whole_flag
whole_length n h e = let t = all_below_sound 1024 whole_flag n whole_flag_table h in ground arith

part_length : (n : ℕ) → n < 1024 → (bit_and (calc_d2 n) 1 == 0) ≡ false → n % 8 ≢ 0
unfolding whole_flag
part_length n h e = let t = all_below_sound 1024 whole_flag n whole_flag_table h in ground arith

abbrev pub packed : ℕ → ℕ → List ℕ → ℕ → List ℕ
packed m refs tagged n = calc_d1 m false ordinary refs ∷ calc_d2 n ∷ take (bytes_for n) tagged

bytes_for-eq : (n : ℕ) → (n + 7) / 8 ≡ bytes_for n
bytes_for-eq n = ground arith

-- `tagged` is the data with its completion tag, which `find_tag` finds after `n` bits.
module _ (m refs : ℕ) (tagged : List ℕ) (n : ℕ) (small : m < 8) (few : refs < 5) (fits : n ≤ 1023)
    (tag : find_tag tagged ≡ n) (long : length tagged ≡ n / 8 + 1) where
  pub packed-level_mask : level_mask (packed m refs tagged n) ≡ m
  packed-level_mask =
      (descriptors_lem m refs n false ordinary (take (bytes_for n) tagged) small few fits).0

  pub packed-store_hashes : store_hashes (packed m refs tagged n) ≡ false
  packed-store_hashes =
      (descriptors_lem m refs n false ordinary (take (bytes_for n) tagged) small few fits).1

  pub packed-cell_type : cell_type (packed m refs tagged n) ≡ ordinary
  unfolding cell_type
  packed-cell_type =
      rw (descriptors_lem m refs n false ordinary (take (bytes_for n) tagged) small few fits).2

  packed-absent : absent (packed m refs tagged n) ≡ false
  packed-absent =
      (descriptors_lem m refs n false ordinary (take (bytes_for n) tagged) small few fits).4

  packed-data_len : cell_data_len (packed m refs tagged n) ≡ bytes_for n
  packed-data_len =
      (descriptors_lem m refs n false ordinary (take (bytes_for n) tagged) small few fits).5
      ∙ bytes_for-eq n

  packed-data_offset : data_offset (packed m refs tagged n) ≡ 2
  unfolding data_offset
  packed-data_offset = rw (packed-absent, packed-store_hashes) (omega arith)

  pub packed-cell_data : cell_data (packed m refs tagged n) ≡ take (bytes_for n) tagged
  unfolding cell_data
  packed-cell_data =
      ap₂ (λ i k. take k (drop i (packed m refs tagged n))) packed-data_offset packed-data_len
      ∙ take_all (bytes_for n) (take (bytes_for n) tagged)
          (omega (arith, length-take (bytes_for n) tagged))

  pub packed-bit_len : bit_len (packed m refs tagged n) ≡ n
  packed-bit_len = elim (Bool-cases (bit_and (calc_d2 n) 1 == 0)) [
    | inl e ↦ whole e
    | inr e ↦ part e
  ]
    where
      whole : (bit_and (calc_d2 n) 1 == 0) ≡ true → bit_len (packed m refs tagged n) ≡ n
      whole e = unfold bit_len in rw (packed-absent, e) (whole_length n (omega arith) e)

      part : (bit_and (calc_d2 n) 1 == 0) ≡ false → bit_len (packed m refs tagged n) ≡ n
      part e =
          unfold bit_len in
          rw (packed-absent, e, packed-cell_data)
            (ap find_tag
                (take_all (bytes_for n) tagged (ground (arith, part_length n (omega arith) e)))
              ∙ tag)
