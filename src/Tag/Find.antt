-- ===== src/Tag/Find.antt =====
-- `find_tag` finds the last one of the bit string.
use ton_labs_types.Base.{
  ℕ, zero, suc, ◌+◌, ◌-◌, ◌*◌, ◌≤◌, ◌<◌, ◌≡◌, refl, sym, ap, ◌∙◌, Bool, true, false, List, [], ◌∷◌,
  ◌++◌, Option, none, some, ◌==◌, append-nil, leb, arith, ==_iff, length, length-append, replicate,
}
use ton_labs_types.Base.Tables.{all_below, all_below_sound}
use ton_labs_types.Bits.{to_bits, bytes_bits, AllBytes}
use ton_labs_types.Bits.Laws.{length-bytes_bits, bytes_bits-append}
use ton_labs_types.Bits.Cut.{AllBytes-append}
use ton_labs_types.Tag.{tag_skip, find_tag_loop, find_tag}
use mathlib.Core.List.{reverse, reverse-cons, reverse-reverse}

-- The index of the last one of a bit string.
abbrev last_after : Bool → Option ℕ → Option ℕ
last_after b (some i) = some (suc i)
last_after true none = some 0
last_after false none = none

abbrev pub last_one : List Bool → Option ℕ
last_one [] = none
last_one (b ∷ bs) = last_after b (last_one bs)

abbrev last_in : ℕ → Option ℕ → Option ℕ → Option ℕ
last_in n first (some i) = some (n + i)
last_in n first none = first

pub last_one-append :
    (xs ys : List Bool) → last_one (xs ++ ys) ≡ last_in (length xs) (last_one xs) (last_one ys)
last_one-append [] ys = ground arith
last_one-append (x ∷ xs) ys = ground (arith, last_one-append xs ys)

last_one-zeros : (n : ℕ) → last_one (replicate n false) ≡ none
last_one-zeros zero = refl
last_one-zeros (suc n) = ap (last_after false) (last_one-zeros n)

-- A tag behind a bit string is found where the bit string ends.
pub last_one-tag :
    (bs : List Bool) (k : ℕ) → last_one (bs ++ (true ∷ replicate k false)) ≡ some (length bs)
last_one-tag bs k = ground (arith, last_one-append bs (true ∷ replicate k false), last_one-zeros k)

option_is : Option ℕ → ℕ → Bool
option_is none n = false
option_is (some i) n = i == n

option_is_sound : (o : Option ℕ) (n : ℕ) → option_is o n ≡ true → o ≡ some n
unfolding option_is
option_is_sound none n h = cc
option_is_sound (some i) n h = ap some ((==_iff i n).0 h)

skip_table :
    all_below 255 (λ x. option_is (last_one (to_bits 8 (suc x))) (8 - tag_skip 8 (suc x) 1 1))
    ≡ true
unfolding all_below option_is to_bits tag_skip
skip_table = refl

skip_range_table : all_below 255 (λ x. leb (tag_skip 8 (suc x) 1 1) 8) ≡ true
unfolding all_below tag_skip
skip_range_table = refl

skip-le : (x : ℕ) → suc x < 256 → tag_skip 8 (suc x) 1 1 ≤ 8
skip-le x h = let t = all_below_sound 255 _ x skip_range_table (omega arith) in ground arith

last_one_byte :
    (x : ℕ) → suc x < 256 → last_one (to_bits 8 (suc x)) ≡ some (8 - tag_skip 8 (suc x) 1 1)
last_one_byte x h = option_is_sound _ _ (all_below_sound 255 _ x skip_table (omega arith))

last_one_byte_zero : last_one (to_bits 8 0) ≡ none
unfolding to_bits
last_one_byte_zero = refl

-- What the loop returns if no one is left: all that it was given, less eight for each byte.
abbrev or_rest : ℕ → ℕ → Option ℕ → ℕ
or_rest len bytes none = len - 8 * bytes
or_rest len bytes (some i) = len - 8 * bytes + i

reverse_bits :
    (x : ℕ) (rs : List ℕ) → bytes_bits (reverse (x ∷ rs)) ≡ bytes_bits (reverse rs) ++ to_bits 8 x
unfolding bytes_bits
reverse_bits x rs =
    ap bytes_bits (reverse-cons x rs)
    ∙ bytes_bits-append (reverse rs) (x ∷ [])
    ∙ ap (λ t. bytes_bits (reverse rs) ++ t) (append-nil (to_bits 8 x))

length-reverse : (rs : List ℕ) → length (reverse rs) ≡ length rs
length-reverse [] = refl
length-reverse (x ∷ rs) =
    ap length (reverse-cons x rs)
    ∙ omega (arith, length-append (reverse rs) (x ∷ []), length-reverse rs)

or_rest-zero :
    (len : ℕ) (rs : List ℕ)
    → or_rest (len - 8) (length rs) (last_one (bytes_bits (reverse rs)))
      ≡ or_rest len (suc (length rs)) (last_one (bytes_bits (reverse rs) ++ to_bits 8 0))
or_rest-zero len rs =
    ground (arith, last_one-append (bytes_bits (reverse rs)) (to_bits 8 0), last_one_byte_zero)

or_rest-suc :
    (len x : ℕ) (rs : List ℕ)
    → suc x < 256
    → 8 * suc (length rs) ≤ len
    → len - tag_skip 8 (suc x) 1 1
      ≡ or_rest len (suc (length rs)) (last_one (bytes_bits (reverse rs) ++ to_bits 8 (suc x)))
or_rest-suc len x rs h l = ground (
  arith,
  last_one-append (bytes_bits (reverse rs)) (to_bits 8 (suc x)),
  last_one_byte x h,
  skip-le x h,
  length-bytes_bits (reverse rs),
  length-reverse rs,
)

find_tag_loop-suc :
    (len x : ℕ) (rs : List ℕ) → find_tag_loop len (suc x ∷ rs) ≡ len - tag_skip 8 (suc x) 1 1
unfolding find_tag_loop
find_tag_loop-suc len x rs = ground arith

find_tag_loop-last_one :
    (rs : List ℕ) (len : ℕ)
    → AllBytes rs
    → 8 * length rs ≤ len
    → find_tag_loop len rs ≡ or_rest len (length rs) (last_one (bytes_bits (reverse rs)))
unfolding find_tag_loop
find_tag_loop-last_one [] len h l = unfold bytes_bits in omega arith
find_tag_loop-last_one (zero ∷ rs) len h l =
    find_tag_loop-last_one rs (len - 8) h.1 (omega arith)
    ∙ or_rest-zero len rs
    ∙ ap (λ b. or_rest len (suc (length rs)) (last_one b)) (sym (reverse_bits 0 rs))
find_tag_loop-last_one (suc x ∷ rs) len h l =
    find_tag_loop-suc len x rs
    ∙ or_rest-suc len x rs h.0 l
    ∙ ap (λ b. or_rest len (suc (length rs)) (last_one b)) (sym (reverse_bits (suc x) rs))

reverse-AllBytes : (xs : List ℕ) → AllBytes xs → AllBytes (reverse xs)
reverse-AllBytes [] h = h
reverse-AllBytes (x ∷ xs) h =
    rw reverse-cons (AllBytes-append (reverse xs) (x ∷ []) (reverse-AllBytes xs h.1) (h.0, tt))

abbrev pub or_zero : Option ℕ → ℕ
or_zero none = 0
or_zero (some i) = i

-- `find_tag` is the position of the last one among the bits, and 0 if every bit is zero.
pub find_tag-last_one :
    (xs : List ℕ) → AllBytes xs → find_tag xs ≡ or_zero (last_one (bytes_bits xs))
unfolding find_tag
find_tag-last_one xs h = ground (
  arith,
  find_tag_loop-last_one (reverse xs) (length xs * 8) (reverse-AllBytes xs h)
      (omega (arith, length-reverse xs)),
  length-reverse xs,
  reverse-reverse xs,
)
