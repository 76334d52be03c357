-- ===== src/Examples.antt =====
-- Runs at concrete inputs, and the theorems at inputs where their hypotheses hold.
mod Builders
mod Slices
mod Cells
mod Sealed
mod Labels
mod Sample
mod Dictionaries
