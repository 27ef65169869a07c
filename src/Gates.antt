-- ===== src/Gates.antt =====
-- cnftools/src/gates: finding the gates of a problem.
pub mod Occurrences
pub mod BlockList
pub mod Recognition
pub mod Structure
pub mod Analyzer
pub mod Tests
