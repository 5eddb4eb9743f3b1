-- ===== src/Registry.antt =====
-- experiments/registry.py: the registry of trusted keys, lineages, experiments and evaluations.
pub mod Schema
pub mod Methods
pub mod Evaluations
pub mod Reads
pub mod Changes
pub mod Effects
pub mod Sequences
pub mod Growth
pub mod Ancestry
pub mod Rows
pub mod Integrity
pub mod Evidence
pub mod Trust
pub mod WriteOnce
mod Tests
