-- ===== src/Tests.antt =====
-- Runs at fixed inputs, and the theorems at inputs that meet their hypotheses.
mod Sessions
mod Desktop
mod Focus
mod Statistics
mod Start
mod Storage
mod Plugins
mod Templates
mod Configuration
mod Refinement
mod Batches
