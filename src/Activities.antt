-- ===== src/Activities.antt =====
-- The activities of the session (src/service/Activities.cpp, Activities.h and Activities_p.h).
-- `Data` has the state, `Listing` the sorted list and the reads, `Operations` the methods that
-- change the state; the other children hold what is proved of them.
pub mod Data
pub mod Listing
pub mod Operations
pub mod Sorting
pub mod Consistency
pub mod Cases
pub mod Calls
pub mod Running
pub mod Adding
pub mod Lifecycle
pub mod Counting
pub mod Conforming
pub mod Supply
pub mod Switching
pub mod Rotation
pub mod Removal
pub mod Startup
pub mod Restart
pub mod Stored
pub mod Returning
pub mod Restoring
pub mod Changing
pub mod Refinement
pub mod Announcing
pub mod Announced
