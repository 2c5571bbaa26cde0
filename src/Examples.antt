-- ===== src/Examples.antt =====
-- Concrete inputs: the hypotheses of the theorems hold at them.
pub mod HubData
pub mod Submissions
pub mod Limits
mod HubRuns
mod Grants
mod Gates
mod Replays
mod Links
mod Dates
mod Keys
mod LeaseData
mod LeaseRuns
mod Sessions
mod Access
mod SignIns
mod Uploads
mod Sweeps
mod Series
mod Queues
