-- ===== src/Dictionary/Trie.antt =====
-- What a dictionary stands for: the tree of its labels and values as a data type, the search in it,
-- and which slices hold such a tree. No function of the source; the theorems on the dictionaries use
-- it as their reference.
pub mod Edges
pub mod Keys
pub mod Lookup
pub mod Leaf
pub mod Prefixes
pub mod Absent
pub mod Last
use ton_labs_types.Base.{
  ℕ, suc, ◌-◌, ◌<◌, ◌≡◌, Bool, true, false, List, [], ◌∷◌, ◌++◌, Option, none, some, length,
}
use ton_labs_types.Types.{Result, ok}
use ton_labs_types.Cell.Tree.{Cell}
use ton_labs_types.Slice.{SliceData, load_cell}
use ton_labs_types.Slice.Spec.{bits, IsWindow}
use ton_labs_types.Slice.Whole.{Refers}
use ton_labs_types.Dictionary.Label.Spec.{IsLabel, short_code}
use ton_labs_types.Dictionary.Label.Width.{width}

pub record Value : Type 0 where
  pub value_bits : List Bool
  pub references : List Cell

-- A label and a value, or a label and what is behind a zero and a one.
pub data Trie : Type 0 where
  leaf : List Bool → Value → Trie
  fork : List Bool → Trie → Trie → Trie

abbrev pub strip : List Bool → List Bool → Option (List Bool)
strip [] key = some key
strip (x ∷ label) [] = none
strip (true ∷ label) (true ∷ key) = strip label key
strip (true ∷ label) (false ∷ key) = none
strip (false ∷ label) (true ∷ key) = none
strip (false ∷ label) (false ∷ key) = strip label key

abbrev pub at_end : Value → Option (List Bool) → Option Value
at_end v none = none
at_end v (some []) = some v
at_end v (some (x ∷ key)) = none

abbrev pub branch :
    (List Bool → Option Value) → (List Bool → Option Value) → Option (List Bool) → Option Value
branch left right none = none
branch left right (some []) = none
branch left right (some (false ∷ key)) = left key
branch left right (some (true ∷ key)) = right key

-- The value of a key.
abbrev pub find : Trie → List Bool → Option Value
find (leaf label v) key = at_end v (strip label key)
find (fork label left right) key = branch (find left) (find right) (strip label key)

-- A slice that starts with a label of the grammar for at most `n` bits.
pub record Node (s : SliceData) (n : ℕ) (label rest : List Bool) (refs : List Cell) : Type 0 where
  pub window : IsWindow s
  pub refers : Refers s refs
  pub code : List Bool
  pub is_label : IsLabel (width n) label code
  pub short : n ≡ 0 → code ≡ short_code label
  pub spells : bits s ≡ code ++ rest

-- A slice holds a tree for keys of `n` bits: all keys of the tree have `n` bits, the value of a leaf
-- follows its label, and a fork has no bits behind its label and two references.
abbrev pub IsTree : SliceData → ℕ → Trie → Type 0
IsTree s n (leaf label v) = Node s n label v.value_bits v.references × (length label ≡ n)
IsTree s n (fork label left right) =
    (c c' : Cell) × Node s n label [] (c ∷ c' ∷ [])
    × (length label < n)
    × ((t : SliceData) × (load_cell c ≡ ok t) × IsTree t (n - suc (length label)) left)
    × ((t : SliceData) × (load_cell c' ≡ ok t) × IsTree t (n - suc (length label)) right)

-- The result of a search: the slice has the bits and the references of the value.
abbrev pub Found : Option Value → Result (Option SliceData) → Type 0
Found none r = r ≡ ok none
Found (some v) r =
    (s : SliceData) × (r ≡ ok (some s))
    × (bits s ≡ v.value_bits)
    × IsWindow s
    × Refers s v.references
