-- ===== src/Probe.antt =====
-- The probes that are injected into the game to study its frontend, in tools/re-probe.
pub mod Memory
pub mod Layout
pub mod Breakpoint
pub mod Append
pub mod Edits
pub mod Page
pub mod Gallery
pub mod Replace
pub mod Inspect
pub mod Regions
pub mod Scan
pub mod Text
pub mod Stub
pub mod Hunt
pub mod Survey
pub mod Seal
