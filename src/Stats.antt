-- ===== src/Stats.antt =====
-- The sqlite plugin (src/service/plugins/sqlite): statistics of the use of resources, and links of
-- resources to activities.
pub mod Tables
pub mod Patterns
pub mod Private
pub mod Scores
pub mod Intervals
pub mod Maintainer
pub mod Events
pub mod Recording
pub mod Pipeline
pub mod Batches
pub mod Tearing
pub mod Deletion
pub mod History
pub mod Links
pub mod Linking
pub mod Configuration
