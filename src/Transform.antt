-- ===== src/Transform.antt =====
-- cnftools/src/transform: problems printed from a formula.
pub mod IndependentSet
pub mod Normalize
