-- ===== src/Manager.antt =====
-- agentsessions/manager.go: the registry of running sessions. `Manager` is the struct with the heap
-- behind its pointers, the goroutines in flight, and the calls made on the sinks and sessions so
-- far. A goroutine's work between two waits is one step; what a Runtime or a Session answers is an
-- argument of the step. An operation that would panic in Go returns `none`.
pub mod State
pub mod Launch
pub mod Watch
pub mod Clients
pub mod Counting
pub mod Moves
pub mod Invariant
pub mod Announce
pub mod Registering
pub mod Delivering
pub mod Attaching
pub mod Exits
pub mod Reuse
pub mod Telling
pub mod Transitions
pub mod Lives
pub mod Examples
