-- ===== src/Spawn.antt =====
-- How the sessions start their children: the command that os/exec runs, the options of Start
-- (agentsessions/types.go) that all of them read, and the wrapping of a command by resource limits
-- (agentsessions/wraparg_unix.go).
pub mod Options
pub mod Limits
pub mod Attempt
pub mod Wrapped
pub mod Signals
pub mod Examples
