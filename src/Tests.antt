-- ===== src/Tests.antt =====
-- Runs of the models at concrete data, and the theorems at inputs that meet their hypotheses.
mod Chunking
mod Manifests
mod Telemetry
mod Ladder
mod Groups
mod Padding
mod Fragments
mod Resume
mod Stages
mod Jobs
mod Census
mod Drain
mod Staging
mod Units
