-- ===== src/Cadical.antt =====
-- cadical/src, as this repository changes it: the solver that leaves gate outputs out of its
-- decisions.
pub mod AuxFile
pub mod Queue
pub mod Heap
pub mod Scores
pub mod NextVariable
pub mod Reluctant
pub mod Dimacs
pub mod Analyze
pub mod Bump
