-- ===== src/Scheduler.antt =====
-- center/server/scheduler.go, with the job types and processJob of runner.go.
pub mod Types
pub mod Create
pub mod Retry
pub mod RetrySteps
pub mod RetryLaws
pub mod RetryWorker
pub mod Lifecycle
pub mod LifecycleLaws
pub mod Progress
pub mod CreateLaws
pub mod Execute
pub mod ExecuteLaws
pub mod ExecuteEnds
