-- ===== src/Lib.antt =====
-- ton-labs-types: the cells of the TON blockchain, the builders that make them, the slices that
-- read them, and the dictionaries kept in them.
--
-- The program. A cell is a bit string of at most 1023 bits with at most four references to other
-- cells. It is kept as a packed buffer: two descriptor bytes, stored hashes and depths where it has
-- them, and the data, which ends with a completion tag where its length is no multiple of 8. A
-- builder collects bits and references; `into_cell` appends the tag, packs the buffer, checks the
-- cell by its type and computes a hash and a depth for each level. A slice is a window on the bits
-- and the references of a cell, and its reads move the window. A dictionary is a tree of cells whose
-- edges carry labels: the builder writes a label from a slice, and the reader takes it from one. A
-- search follows the labels of a key down the tree; a put or a removal goes down the same way and
-- makes the nodes on its path anew, and a filter, a merge or a split makes the trees they touch anew.
--
-- The files.
--   Base, Bits   lists, windows on lists, and bit strings: what the specifications are stated in.
--   Types        src/types.rs: the exception codes and `Result`. A panic (an index, an `unwrap`, an
--                `assert!`) is a value of its own, so a theorem that a call is `ok` also says that
--                it does not panic. Cell.Layout is the exception: a read past the end of a packed
--                buffer panics in the source, and there it is 0, or the slice is cut short.
--   Tag          src/cell/mod.rs, `find_tag` and `append_tag`.
--   Cell         src/cell/mod.rs. LevelMask and CellType; Layout, the packed form, with Layout.Build
--                (`build_cell_buf`, `check_cell_buf`); Data (`CellBuffer`, `CellData`); Tree (`Cell`,
--                `DataCell`, `VirtualCell`); Finalize (`construct_cell` and `finalize`).
--   Builder      src/cell/builder.rs, and src/cell/builder_operations.rs in Builder.Operations.
--                Builder.Spec says what bits a builder stands for; Builder.Append, Cut and Shift are
--                about `append_raw`, IntoCell and RoundTrip about the cell that is made.
--   Slice        src/cell/slice.rs. Reading has the reads of bits and integers, Transfer the moves
--                between slices, builders and cells, Prefix the comparison of two slices and their
--                common prefix. Slice.Spec says what bits a slice stands for.
--   Dictionary   src/dictionary/mod.rs: Label (`hml_long`, `hml_short`, `hml_same`, `hm_label`) and
--                LabelReader; Root (`write_hashmap_data`, `read_hashmap_data` and the like); Kind,
--                the trait `HashmapType` as a record; Get, Put and Remove, the searches, the puts
--                with their modes and the removal; Walk, Filter, Combine and Subtree, what goes over
--                a whole tree. HashmapE is src/dictionary/hashmap.rs, PfxHashmapE
--                src/dictionary/pfxhashmap.rs. Label.Spec is the grammar of labels that writer and
--                reader are measured against; Trie is the tree of keys and values that a root cell
--                holds: Trie.Lookup measures `hashmap_get` against the search in it, and Trie.Leaf
--                and Trie.Last are about a dictionary of one key, Trie.Absent about a removal that
--                finds nothing. Unchanged is about the calls that leave a dictionary as it was.
--   Examples     runs of the code and the theorems at concrete inputs.
--
-- The model. Bytes and machine integers are natural numbers; the places where the source wraps have
-- the remainder written out. A method with `&mut self` takes the object and returns the new one. On
-- an error the changed object is not returned: no caller in the modelled code goes on with it.
-- Cells are immutable behind their `Arc`, so a cell is a tree. SHA-256 belongs to another package: it
-- is a parameter, and nothing is assumed of it. `GasConsumer` is the one implemented in src/lib.rs,
-- for `u64`: it loads a cell and makes one, and takes no gas.
--
-- Fuel. The loops over lists, bytes and a number of rounds are recursions on them. Four loops take a
-- bound: `tag_skip` has 8 rounds, one for each bit of a byte that is not zero; `bytestring_loop` has
-- a round for each byte of the window and one more (Slice.Bytes shows that it then ends by itself);
-- `count_ones` has a round for each bit of the window and one more (LabelReader.Unary shows that it
-- then ends by itself); `pushed_indices` has four, since only the indices 0 to 3 are significant.
-- `significant_bits` looks at 16 bits because its argument is cast to `u16`, and `hash_loop` has the
-- four levels of the source. Where slices are compared, `shared_bytes` and `same_bytes` have a round
-- for each byte of the window and one more. The searches of a dictionary have a round for each bit
-- of the key and one more, since each fork on the way takes a bit of the key (Trie.Lookup has the
-- search end within them); the walks, the filter, the merge and the searches by prefix have
-- `bit_len` and one more, since each fork takes one from the length of the keys below it.
--
-- Not modelled. Of dictionaries: `scan_diff` and its helpers, `count_cells`, and the trait `Iterator`
-- around the iterator's next item. Bags of cells (src/cell/cells_serialization.rs). `UsageCell` and
-- `UsageTree`, which record visits in a shared concurrent set. Formatting and hashing traits, logging, debug assertions and memory
-- reservation. In src/types.rs and src/lib.rs: `UInt256`, `AccountId`, the readers of integers from
-- streams, and the parsers of test data.
pub mod Base
pub mod Bits
pub mod Types
pub mod Tag
pub mod Cell
pub mod Builder
pub mod Slice
pub mod Dictionary
pub mod Examples
