-- ===== src/Scenarios.antt =====
-- Concrete inputs, and the theorems at them.
mod Numbers
mod World
mod Shop
mod ChangeRuns
mod StoreRuns
mod ReportRuns
mod RuleRuns
mod MemoryRuns
mod SandboxRuns
mod AccountRuns
mod BundleRuns
mod RestoreRuns
mod UpdateRuns
