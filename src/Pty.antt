-- ===== src/Pty.antt =====
-- agentsessions/pty_session.go: the session of one long-lived child on a pseudo-terminal. The
-- reader, the waiters and the supervisors are those of Child, whose code this file has once more.
pub mod Attempt
pub mod Restarting
pub mod Released
pub mod Goroutines
pub mod Clients
pub mod Held
pub mod Starting
pub mod Examples
