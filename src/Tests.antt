-- ===== src/Tests.antt =====
-- Runs of the model on small inputs, and each theorem at a concrete input.
mod Floats
mod Splitter
mod Scheduler
mod Jobs
mod Pipelines
mod Limiter
mod Store
mod Center
mod Queue
mod System
