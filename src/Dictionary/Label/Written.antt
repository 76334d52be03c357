-- ===== src/Dictionary/Label/Written.antt =====
-- Labels under construction: the bits that were written so far.
use ton_labs_types.Base.{
  ℕ, zero, suc, ◌+◌, ◌-◌, ◌*◌, ◌^◌, ◌≤◌, ◌<◌, ◌≡◌, refl, sym, ap, ◌∙◌, Bool, true, false, List, [],
  ◌∷◌, ◌++◌, append-nil, append_assoc, subst, arith, length, take, drop, length-append, length-take,
  length-replicate, replicate_add, replicate,
}
use ton_labs_types.Types.{Result, ok}
use ton_labs_types.Bits.{bytes_bits, to_bits}
use ton_labs_types.Bits.Laws.{length-bytes_bits, drop-to_bits}
use ton_labs_types.Cell.LevelMask.{with_mask}
use ton_labs_types.Cell.CellType.{ordinary}
use ton_labs_types.Builder.{BuilderData, with_raw, cut_bytes, clear_low}
use ton_labs_types.Builder.Spec as Builder
use ton_labs_types.Builder.Append.{Appended}
use ton_labs_types.Builder.Operations.{append_bits}
use ton_labs_types.Builder.Operations.Spells.{append_bits-Appended}
use ton_labs_types.Dictionary.Label.{append_ones}

-- A new ordinary builder of these bits.
pub record Written (l : List Bool) (b : BuilderData) : Type 0 where
  pub spells : Builder.bits b ≡ l
  pub length_in_bits : b.length_in_bits ≡ length l
  pub valid : Builder.IsValid b
  pub references : b.references ≡ []
  pub cell_type : b.cell_type ≡ ordinary
  pub level_mask : b.level_mask ≡ 0

pub grown-Written :
    (l l' : List Bool) (b b' : BuilderData) → Written l b → Appended b l' b' → Written (l ++ l') b'
grown-Written l l' b b' w a = record {
  spells = a.spells ∙ ap (λ t. t ++ l') w.spells;
  length_in_bits = a.length_in_bits ∙ omega (arith, w.length_in_bits, length-append l l');
  valid = a.valid;
  references = a.references ∙ w.references;
  cell_type = a.cell_type ∙ w.cell_type;
  level_mask = a.level_mask ∙ w.level_mask;
}

-- A label that is written.
abbrev pub Writes : List Bool → Result BuilderData → Type 0
Writes l r = (b : BuilderData) × (r ≡ ok b) × Written l b

module _ (byte n : ℕ) where
  start : BuilderData
  start = record {
    bytes = byte ∷ [];
    length_in_bits = n;
    references = [];
    cell_type = ordinary;
    level_mask = 0;
  }

  start-Written : byte < 256 → n ≤ 8 → Written (take n (bytes_bits (byte ∷ []))) start
  unfolding start bytes_bits
  start-Written small few = record {
    spells = refl;
    length_in_bits =
        omega (arith, length-take n (bytes_bits (byte ∷ [])), length-bytes_bits (byte ∷ []));
    valid = record {
      covered = omega arith;
      in_capacity = omega arith;
      stored = omega arith;
      all_bytes = (small, tt);
      few_references = omega arith;
    };
    references = refl;
    cell_type = refl;
    level_mask = refl;
  }

pub long_start : Writes (true ∷ false ∷ []) (with_raw (0b10000000 ∷ []) 2)
unfolding with_raw cut_bytes clear_low with_mask start bytes_bits to_bits
long_start = (start 0b10000000 2, refl, start-Written 0b10000000 2 (omega arith) (omega arith))

pub short_start : Writes (false ∷ []) (with_raw (0b00000000 ∷ []) 1)
unfolding with_raw cut_bytes clear_low with_mask start bytes_bits to_bits
short_start = (start 0 1, refl, start-Written 0 1 (omega arith) (omega arith))

pub empty_label : Writes (false ∷ false ∷ []) (with_raw (0b00000000 ∷ []) 2)
unfolding with_raw cut_bytes clear_low with_mask start bytes_bits to_bits
empty_label = (start 0 2, refl, start-Written 0 2 (omega arith) (omega arith))

pub same_start : Writes (true ∷ true ∷ []) (with_raw (0b11000000 ∷ []) 2)
unfolding with_raw cut_bytes clear_low with_mask start bytes_bits to_bits
same_start = (start 0b11000000 2, refl, start-Written 0b11000000 2 (omega arith) (omega arith))

-- The digits of a number behind what is written.
pub digits-Written :
    (l : List Bool) (b : BuilderData) (value n : ℕ)
    → Written l b
    → n < 64
    → length l + n ≤ 1023
    → Writes (l ++ to_bits n value) (append_bits b value n)
digits-Written l b value n w few room =
    let (b', runs, a) =
      append_bits-Appended b w.valid value n few (omega (arith, w.length_in_bits)) in
    (b', runs, grown-Written l (to_bits n value) b b' w a)

-- `n` ones, `n` at most 32.
ones_32 : to_bits 32 (2 ^ 32 - 1) ≡ replicate 32 true
unfolding to_bits
ones_32 = refl

drop-replicate : (m n : ℕ) → drop m (replicate (m + n) true) ≡ replicate n true
drop-replicate zero n = ap (λ k. replicate k true) {x = zero + n} (omega arith)
drop-replicate (suc m) n =
    ap (λ k. drop (suc m) (replicate k true)) {x = suc m + n} {y = suc (m + n)} (omega arith)
    ∙ drop-replicate m n

ones-eq : (n : ℕ) → n ≤ 32 → to_bits n (2 ^ 32 - 1) ≡ replicate n true
ones-eq n h =
    sym (drop-to_bits (32 - n) n (2 ^ 32 - 1))
    ∙ ap (λ k. drop (32 - n) (to_bits k (2 ^ 32 - 1))) {x = 32 - n + n} {y = 32} (omega arith)
    ∙ ap (drop (32 - n)) ones_32
    ∙ ap (λ k. drop (32 - n) (replicate k true)) {x = 32} {y = 32 - n + n} (omega arith)
    ∙ drop-replicate (32 - n) n

pub some_ones :
    (l : List Bool) (b : BuilderData) (n : ℕ)
    → Written l b
    → n ≤ 32
    → length l + n ≤ 1023
    → Writes (l ++ replicate n true) (append_bits b (2 ^ 32 - 1) n)
some_ones l b n w few room =
    subst (λ t. Writes (l ++ t) (append_bits b (2 ^ 32 - 1) n)) (ones-eq n few)
      (digits-Written l b (2 ^ 32 - 1) n w (omega arith) room)

pub append_ones-Writes :
    (k : ℕ) (l : List Bool) (b : BuilderData)
    → Written l b
    → length l + 32 * k ≤ 1023
    → Writes (l ++ replicate (32 * k) true) (append_ones k b)
unfolding append_ones
append_ones-Writes zero l b w room = (
  b,
  refl,
  subst (λ t. Written t b)
      (sym (ap (λ n. l ++ replicate n true) {x = 32 * zero} {y = 0} (omega arith) ∙ append-nil l))
      w,
)
append_ones-Writes (suc k) l b w room =
    let (b', e, w') = some_ones l b 32 w (omega arith) (omega arith) in
    let (b'', e', w'') =
      append_ones-Writes k (l ++ replicate 32 true) b' w'
        (omega (arith, length-append l (replicate 32 true), length-replicate 32 true)) in
    (
      b'',
      rw e e',
      subst (λ t. Written t b'')
          (append_assoc l (replicate 32 true) (replicate (32 * k) true)
            ∙ ap (l ++◌) (replicate_add 32 (32 * k) true)
            ∙ ap (λ n. l ++ replicate n true) {x = 32 + 32 * k} {y = 32 * suc k} (omega arith))
          w'',
    )
