-- ===== src/Examples.antt =====
-- Runs of the models at concrete inputs: sample data for the types that the repository does not
-- define, and the theorems applied to it.
mod Sample
mod RegistryRuns
mod CatalogRuns
mod AuditSample
mod AuditRuns
mod ControlRuns
mod RecoveryRuns
