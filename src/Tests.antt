-- ===== src/Tests.antt =====
-- Runs of the model on concrete inputs, and the theorems at those inputs.
mod Sample
mod ZoneRuns
mod StoreRuns
mod DeployRuns
mod WebRuns
mod ConfigRuns
mod HandlerRuns
mod ServerRuns
mod LoginRuns
mod DeployedRuns
mod CommandRuns
mod OutcomeRuns
mod Overlaps
mod ProcessRuns
mod CleanRuns
mod RestoredRuns
