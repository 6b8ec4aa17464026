-- ===== src/Center.antt =====
-- center/server/main.go: the initial task types and workers, the handlers and their routes.
pub mod Init
pub mod InitLaws
pub mod Http
pub mod Handlers
pub mod Routes
pub mod SubmitLaws
pub mod JobLaws
pub mod RouteLaws
pub mod BurstLaws
pub mod Boot
pub mod BootLaws
