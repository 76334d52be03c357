-- ===== src/Dictionary/LabelReader.antt =====
-- src/dictionary/mod.rs: `LabelReader`, which reads a label from a slice once, and the older methods
-- of `SliceData` that use it. `next_reader`, `is_fork` and `is_leaf` depend on the kind of dictionary:
-- they are in Get.
pub mod Parts
pub mod Unary
pub mod Sizes
pub mod Reads
pub mod RoundTrip
pub mod Raw
pub mod Skip
use ton_labs_types.Base.{
  ℕ, zero, suc, ◌+◌, ◌-◌, ◌/◌, Bool, true, false, not, List, ltb, if◌then◌else◌, replicate,
}
use ton_labs_types.Types.{Result, ok, err, panic, message, fail, cell_underflow, ◌>>=◌}
use ton_labs_types.Cell.Tree.{Cell}
use ton_labs_types.Builder.{BuilderData, new, append_raw}
use ton_labs_types.Slice.{
  SliceData, remaining_bits, is_empty, shrink_data, shrink_references, move_by, reference,
  load_cell, included, excluded, unbounded,
}
use ton_labs_types.Slice.Reading.{get_next_bit, get_next_size}
use ton_labs_types.Slice.Transfer.{append_bytestring, load_builder, default_slice}

pub record LabelReader : Type 0 where
  pub cursor : SliceData
  pub already_read : Bool

unfoldable pub new_reader : SliceData → LabelReader
new_reader cursor = record { cursor = cursor; already_read = false }

unfoldable pub with_cell : Cell → Result LabelReader
with_cell cell = do cursor ← load_cell cell; ok (new_reader cursor)

-- `max.checked_sub(len).ok_or(ExceptionCode::CellUnderflow)?`
unfoldable pub less : ℕ → ℕ → Result ℕ
less max len = if ltb max len then fail cell_underflow else ok (max - len)

-- `while self.cursor.get_next_bit()? { len += 1 }`. Each round takes a bit of the window, so a round
-- more than it has bits is enough.
unfoldable pub count_ones : ℕ → SliceData → ℕ → Result (SliceData × ℕ)
count_ones zero s len = panic
count_ones (suc fuel) s len = do
  (s', bit) ← get_next_bit s
  let rest = count_ones fuel s' (len + 1)
  if bit then rest else ok (s', len)

unfoldable pub unary : SliceData → Result (SliceData × ℕ)
unary s = count_ones (remaining_bits s + 1) s 0

-- The cursor behind the next `len` bits, and those bits without references. A cut past the end
-- changes nothing.
unfoldable pub cut_label : SliceData → ℕ → Result (SliceData × SliceData)
cut_label cursor len = do
  (label, _refs) ← shrink_references cursor unbounded (excluded 0)
  ok (
    (shrink_data cursor (included len) unbounded).0,
    (shrink_data label unbounded (excluded len)).0,
  )

-- The readers of the three encodings return the cursor, the new `max` and the label.
unfoldable pub get_label_short : SliceData → ℕ → Result (SliceData × ℕ × SliceData)
get_label_short s max = do
  (s', len) ← unary s
  max' ← less max len
  (cursor, label) ← cut_label s' len
  ok (cursor, max', label)

unfoldable pub get_label_long : SliceData → ℕ → Result (SliceData × ℕ × SliceData)
get_label_long s max = do
  (s', len) ← get_next_size s max
  (cursor, label) ← cut_label s' len
  max' ← less max len
  ok (cursor, max', label)

unfoldable pub get_label_same : SliceData → ℕ → BuilderData → Result (SliceData × ℕ × BuilderData)
get_label_same s max key = do
  (s', bit) ← get_next_bit s
  (s'', len) ← get_next_size s' max
  key' ← append_raw key (replicate (len / 8 + 1) (if bit then 0xff else 0)) len
  max' ← less max len
  ok (s'', max', key')

-- The reader of which the label is read.
unfoldable pub read_up_to : SliceData → LabelReader
read_up_to cursor = record { cursor = cursor; already_read = true }

unfoldable pub remainder : LabelReader → Result SliceData
remainder r = if not r.already_read then err message else ok r.cursor

unfoldable pub reader_reference : LabelReader → ℕ → Result Cell
reader_reference r index = if not r.already_read then err message else reference r.cursor index

unfoldable pub get_label_raw :
    LabelReader → ℕ → BuilderData → Result (LabelReader × ℕ × BuilderData)
get_label_raw r max key =
    if r.already_read
    then err message
    else if is_empty r.cursor
    then ok (read_up_to r.cursor, max, key)
    else (do
      (s, first) ← get_next_bit r.cursor
      if not first
          then (do
            (s', max', label) ← get_label_short s max
            key' ← append_bytestring key label
            ok (read_up_to s', max', key'))
          else (do
            (s', second) ← get_next_bit s
            if not second
                then (do
                  (s'', max', label) ← get_label_long s' max
                  key' ← append_bytestring key label
                  ok (read_up_to s'', max', key'))
                else (do
                  (s'', max', key') ← get_label_same s' max key
                  ok (read_up_to s'', max', key'))))

module _ (sha256 : List ℕ → List ℕ) where
  unfoldable pub get_label : LabelReader → ℕ → Result (LabelReader × SliceData)
  get_label r max =
      if r.already_read
      then err message
      else if is_empty r.cursor
      then (do label ← default_slice sha256; ok (read_up_to r.cursor, label))
      else (do
        (s, first) ← get_next_bit r.cursor
        if not first
            then (do (s', max', label) ← get_label_short s max; ok (read_up_to s', label))
            else (do
              (s', second) ← get_next_bit s
              if not second
                  then (do (s'', max', label) ← get_label_long s' max; ok (read_up_to s'', label))
                  else (do
                    (s'', max', key) ← get_label_same s' max new
                    label ← load_builder sha256 key
                    ok (read_up_to s'', label))))

  -- `SliceData::get_label`
  unfoldable pub slice_get_label : SliceData → ℕ → Result (SliceData × SliceData)
  slice_get_label s max = do
    (reader, key) ← get_label (new_reader s) max
    cursor ← remainder reader
    ok (cursor, key)

unfoldable pub skip_label : LabelReader → ℕ → Result (LabelReader × ℕ)
skip_label r max =
    if r.already_read
    then err message
    else if is_empty r.cursor
    then (do max' ← less max 0; ok (read_up_to r.cursor, max'))
    else (do
      (s, first) ← get_next_bit r.cursor
      if not first
          then (do
            (s', len) ← unary s
            s'' ← move_by s' len
            max' ← less max len
            ok (read_up_to s'', max'))
          else (do
            (s', second) ← get_next_bit s
            if not second
                then (do
                  (s'', len) ← get_next_size s' max
                  s''' ← move_by s'' len
                  max' ← less max len
                  ok (read_up_to s''', max'))
                else (do
                  (s'', bit) ← get_next_bit s'
                  (s''', len) ← get_next_size s'' max
                  max' ← less max len
                  ok (read_up_to s''', max'))))

-- `SliceData::get_label_raw`
unfoldable pub slice_get_label_raw :
    SliceData → ℕ → BuilderData → Result (SliceData × ℕ × BuilderData)
slice_get_label_raw s max key = do
  (reader, max', key') ← get_label_raw (new_reader s) max key
  cursor ← remainder reader
  ok (cursor, max', key')
