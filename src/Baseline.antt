-- ===== src/Baseline.antt =====
-- internal/verify/baseline.go: the accepted findings of a repository, how a report is judged against
-- them, and how a run is recorded.
pub mod Entry
pub mod Mark
pub mod Marked
pub mod Messages
pub mod Configured
pub mod Apply
pub mod Verdict
pub mod Record
pub mod Tallies
pub mod Allowance
pub mod Parsed
pub mod Sorted
pub mod Covering
pub mod Counted
pub mod Recorded
pub mod RoundTrip
pub mod Examples
mod RecordExamples
