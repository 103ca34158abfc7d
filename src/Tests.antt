-- ===== src/Tests.antt =====
-- Runs of the models on concrete values, and the theorems at concrete inputs.
pub mod NeighborRuns
pub mod PubsubRuns
pub mod L2Runs
pub mod ServiceRuns
pub mod DfuRuns
pub mod MachineRuns
pub mod UpdateRuns
pub mod ChecksumRuns
pub mod BcmpRuns
pub mod TransmitRuns
pub mod RegistryRuns
pub mod ConfigurationRuns
