-- ===== src/Dictionary/Root.antt =====
-- src/dictionary/mod.rs: the methods of `SliceData` that read the root of a dictionary, and
-- `write_hashmap_data` and `read_hashmap_data`.
use ton_labs_types.Base.{ℕ, Bool, true, false, Option, none, some, ◌==◌, if◌then◌else◌}
use ton_labs_types.Types.{Result, ok, err, panic, exception, cell_underflow, ok_or, ◌>>=◌}
use ton_labs_types.Cell.Tree.{Cell}
use ton_labs_types.Builder.{BuilderData, checked_append_reference}
use ton_labs_types.Builder.Operations.{append_bit_one, append_bit_zero}
use ton_labs_types.Slice.{
  SliceData, remaining_references, is_empty, shrink_data, shrink_references, get_bit_opt,
  checked_drain_reference, reference_opt, excluded, unbounded,
}
use ton_labs_types.Slice.Prefix.{get_next_bit_opt}

unfoldable pub is_empty_root : SliceData → Result Bool
is_empty_root s =
    if is_empty s
    then ok true
    else (do bit ← get_bit_opt s 0; elim bit [ some false ↦ ok true | _ ↦ ok false ])

-- `root` with one bit and `count` references.
root_of : SliceData → ℕ → Result (Option SliceData)
root_of root count = do
  (root', _refs) ← shrink_references root unbounded (excluded count)
  ok (some (shrink_data root' unbounded (excluded 1)).0)

-- The slice that is left, and the root. Where the result is `None` the slice has lost its bit if
-- there is one.
unfoldable pub get_dictionary_opt : SliceData → Result (SliceData × Option SliceData)
unfolding root_of
get_dictionary_opt s = do
  bit ← get_next_bit_opt s
  elim bit [
    | none ↦ ok (s, none)
    | some (s', value) ↦
        if value == 0
        then (root_of s 0 >>= λ root. ok (s', root))
        else if remaining_references s' == 0
        then ok (s', none)
        else elim (checked_drain_reference s') [
          | ok (s'', _) ↦ (root_of s 1 >>= λ root. ok (s'', root))
          | err _ ↦ ok (s', none)
          | panic ↦ panic
        ]
  ]

unfoldable pub get_dictionary : SliceData → Result (SliceData × SliceData)
get_dictionary s = do
  (s', found) ← get_dictionary_opt s
  root ← ok_or found (exception cell_underflow)
  ok (s', root)

-- `HashmapType::write_hashmap_data`, of a dictionary with the root `dict`.
unfoldable pub write_hashmap_data : Option Cell → BuilderData → Result BuilderData
write_hashmap_data (some root) b = do b' ← append_bit_one b; checked_append_reference b' root
write_hashmap_data none b = append_bit_zero b

-- `HashmapType::read_hashmap_data`: the new root.
unfoldable pub read_hashmap_data : SliceData → Result (SliceData × Option Cell)
read_hashmap_data s = do (s', dict) ← get_dictionary s; ok (s', reference_opt dict 0)
