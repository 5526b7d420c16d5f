-- ===== src/Examples.antt =====
-- The theorems at concrete inputs that meet their hypotheses, and tests of the definitions.
pub mod RelayExamples
pub mod WireExamples
pub mod ConfigExamples
pub mod ModExamples
pub mod StatusExamples
pub mod TunnelExamples
pub mod ProbeExamples
pub mod PageExamples
pub mod ScanExamples
