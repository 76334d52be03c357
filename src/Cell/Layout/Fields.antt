-- ===== src/Cell/Layout/Fields.antt =====
-- The two descriptor bytes: what is packed into them is read back.
use ton_labs_types.Base.{
  ℕ, ◌+◌, ◌*◌, ◌/◌, ◌%◌, ◌^◌, ◌≤◌, ◌<◌, ◌≡◌, refl, sym, Bool, true, false, not, ◌&&◌, List, ◌∷◌,
  bit_and, bit_or, ◌==◌, arith, ==_iff,
}
use ton_labs_types.Base.Tables.{all_below, all_below_sound}
use ton_labs_types.Cell.LevelMask.{with_mask}
use ton_labs_types.Cell.CellType.{CellType, is_ordinary}
use ton_labs_types.Cell.Layout.{
  flag, calc_d1, calc_d2, level_mask, store_hashes, exotic, refs_count, absent, cell_data_len,
}

-- The same Boolean.
same : Bool → Bool → Bool
same true b = b
same false b = not b

same_sound : (a b : Bool) → same a b ≡ true → a ≡ b
unfolding same
same_sound true true h = refl
same_sound true false h = cc
same_sound false true h = cc
same_sound false false h = refl

and_sound : (a b : Bool) → (a && b) ≡ true → (a ≡ true) × (b ≡ true)
and_sound true true h = (refl, refl)
and_sound true false h = (refl, h)
and_sound false b h = (h, cc)

descriptor : ℕ → Bool → Bool → ℕ → ℕ
descriptor m stores is_exotic refs =
    bit_or (bit_or (bit_or (m * 2 ^ 5 % 256) (flag stores * 16)) (flag is_exotic * 8)) (refs % 256)

reads_back : Bool → Bool → ℕ → ℕ → Bool
unfolding descriptor with_mask same
reads_back stores is_exotic m refs =
    let d1 = descriptor m stores is_exotic refs in
    with_mask (d1 / 2 ^ 5) == m
    && (same (bit_and d1 16 == 16) stores
        && (same (bit_and d1 8 == 8) is_exotic && (bit_and d1 7 == refs && not (d1 == 0x17))))

table : Bool → Bool → Bool
unfolding all_below reads_back
table stores is_exotic = all_below 8 (λ m. all_below 5 (reads_back stores is_exotic m))

table_holds : (stores is_exotic : Bool) → table stores is_exotic ≡ true
unfolding table
table_holds true true = refl
table_holds true false = refl
table_holds false true = refl
table_holds false false = refl

reads_back_lem :
    (stores is_exotic : Bool) (m refs : ℕ)
    → m < 8
    → refs < 5
    → reads_back stores is_exotic m refs ≡ true
unfolding table
reads_back_lem stores is_exotic m refs h k =
    all_below_sound 5 (reads_back stores is_exotic m) refs
      (all_below_sound 8 (λ i. all_below 5 (reads_back stores is_exotic i)) m
        (table_holds stores is_exotic) h)
      k

reads_back_facts :
    (stores is_exotic : Bool) (m refs : ℕ)
    → m < 8
    → refs < 5
    → (with_mask (descriptor m stores is_exotic refs / 2 ^ 5) ≡ m)
      × ((bit_and (descriptor m stores is_exotic refs) 16 == 16) ≡ stores)
      × ((bit_and (descriptor m stores is_exotic refs) 8 == 8) ≡ is_exotic)
      × (bit_and (descriptor m stores is_exotic refs) 7 ≡ refs)
      × ((descriptor m stores is_exotic refs == 0x17) ≡ false)
unfolding reads_back
reads_back_facts stores is_exotic m refs h k =
    let (a, as') = and_sound _ _ (reads_back_lem stores is_exotic m refs h k) in
    let (b, bs) = and_sound _ _ as' in
    let (c, cs) = and_sound _ _ bs in
    let (d, e) = and_sound _ _ cs in
    ((==_iff _ _).0 a, same_sound _ _ b, same_sound _ _ c, (==_iff _ _).0 d, not_true _ e)
  where
    not_true : (b : Bool) → not b ≡ true → b ≡ false
    not_true true h = sym h
    not_true false h = refl

data_size : (bits : ℕ) → bits < 1024 → calc_d2 bits / 2 + bit_and (calc_d2 bits) 1 ≡ (bits + 7) / 8
unfolding calc_d2 all_below
data_size bits h =
    (==_iff _ _).0
      (all_below_sound 1024 (λ n. calc_d2 n / 2 + bit_and (calc_d2 n) 1 == (n + 7) / 8) bits refl h)

-- A buffer that starts with the descriptors of a level mask below 8, at most 4 references and at
-- most 1023 bits is read back: the mask, the flags, the number of references, and the bytes that
-- the data takes. It is not taken for an absent cell.
pub descriptors_lem :
    (m refs bits : ℕ) (stores : Bool) (t : CellType) (rest : List ℕ)
    → m < 8
    → refs < 5
    → bits ≤ 1023
    → (level_mask (calc_d1 m stores t refs ∷ calc_d2 bits ∷ rest) ≡ m)
      × (store_hashes (calc_d1 m stores t refs ∷ calc_d2 bits ∷ rest) ≡ stores)
      × (exotic (calc_d1 m stores t refs ∷ calc_d2 bits ∷ rest) ≡ not (is_ordinary t))
      × (refs_count (calc_d1 m stores t refs ∷ calc_d2 bits ∷ rest) ≡ refs)
      × (absent (calc_d1 m stores t refs ∷ calc_d2 bits ∷ rest) ≡ false)
      × (cell_data_len (calc_d1 m stores t refs ∷ calc_d2 bits ∷ rest) ≡ (bits + 7) / 8)
unfolding level_mask store_hashes exotic refs_count absent cell_data_len calc_d1 descriptor
descriptors_lem m refs bits stores t rest h k fits =
    let (mask, stored, marked, counted, here) = facts in
    (mask, rw here stored, marked, rw here counted, here, rw here size)
  where
    facts :
        (with_mask (descriptor m stores (not (is_ordinary t)) refs / 2 ^ 5) ≡ m)
        × ((bit_and (descriptor m stores (not (is_ordinary t)) refs) 16 == 16) ≡ stores)
        × ((bit_and (descriptor m stores (not (is_ordinary t)) refs) 8 == 8) ≡ not (is_ordinary t))
        × (bit_and (descriptor m stores (not (is_ordinary t)) refs) 7 ≡ refs)
        × ((descriptor m stores (not (is_ordinary t)) refs == 0x17) ≡ false)
    facts = reads_back_facts stores (not (is_ordinary t)) m refs h k

    size : calc_d2 bits / 2 + bit_and (calc_d2 bits) 1 ≡ (bits + 7) / 8
    size = data_size bits (omega arith)
