-- ===== src/Cell.antt =====
-- src/cell/mod.rs: cells. `LevelMask` and `CellType` are small values, `Layout` the packed form of
-- one cell, `Data` a packed cell with its hashes, `Tree` a cell with its references, `Finalize`
-- the checks and the hashes that every new cell passes through.
pub mod LevelMask
pub mod CellType
pub mod Layout
pub mod Data
pub mod Tree
pub mod Finalize
