-- ===== src/Stdio.antt =====
-- agentsessions/streaming_stdio_session.go: what is its own in the session on pipes, spawnAttempt
-- and the methods that clients call.
pub mod Spawning
pub mod Clients
pub mod Steps
pub mod Held
pub mod Framing
pub mod Starting
pub mod Fresh
pub mod Restarting
pub mod Examples
