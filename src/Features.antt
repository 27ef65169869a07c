-- ===== src/Features.antt =====
-- cnftools/src/features: what is reported of a problem and its gates.
pub mod GateReport
pub mod Levels
pub mod CnfStats
