-- ===== src/Tests.antt =====
-- Runs of the model at concrete inputs.
pub mod Trees
pub mod Runs
pub mod Histories
pub mod Draws
pub mod Files
pub mod Targets
pub mod Sessions
pub mod Machine
pub mod Cycles
pub mod Calls
pub mod Probed
pub mod Populations
pub mod Arguments
