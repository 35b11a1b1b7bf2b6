-- ===== src/Examples.antt =====
-- Runs of the models at concrete inputs, and the theorems applied at them.
mod FusionRuns
mod BytecodeRuns
mod DescriptorRuns
mod TriageRuns
mod Mutf8Runs
mod PoolRuns
mod ConstantRuns
mod BootstrapRuns
mod OperandRuns
