-- ===== src/Dictionary.antt =====
-- src/dictionary/mod.rs: dictionaries from bit strings to slices, kept as trees of cells whose edges
-- carry labels. `Label` writes the labels and `LabelReader` reads them; `Kind` is what the two kinds
-- of dictionaries differ in; `Trie` and `Unchanged` hold theorems; the others are the operations on
-- trees and the two types of dictionaries.
pub mod Label
pub mod LabelReader
pub mod Root
pub mod Kind
pub mod Get
pub mod Put
pub mod Remove
pub mod Walk
pub mod Filter
pub mod Combine
pub mod Subtree
pub mod HashmapE
pub mod PfxHashmapE
pub mod Unchanged
pub mod Trie
