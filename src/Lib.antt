-- ===== src/Lib.antt =====
-- go-agent-sessions, verified: the session library of agentsessions/.
--
-- A Manager (agentsessions/manager.go) starts sessions of agent programs through runtimes,
-- watches each with a goroutine, and tells its sinks about state changes. Each session can have
-- an attach broker (agentsessions/attach.go), which keeps the tail of the session's output in a
-- ring and fans it out to subscribers. Which runtime is built for an adapter follows from its
-- capability flags (agentsessions/from_adapter.go, agentsessions/types.go). The long-lived
-- runtimes restart a child that crashes (agentsessions/supervision.go); they talk to it through
-- pipes (agentsessions/streaming_stdio_session.go), a terminal (agentsessions/pty_session.go),
-- JSON-RPC (agentsessions/jsonrpc_stdio_session.go) or HTTP
-- (agentsessions/serve_http_session.go). A directory may be planted for a session first
-- (agentsessions/bootdir_planting.go).
--
-- - Prelude, Prelude/*: shared names, Boolean tests, lists, association lists for Go maps,
--   integers, and texts as lists of bytes.
-- - Attach: attachBroker. A Go channel is a bounded queue in a store of references; an operation
--   that would panic returns `none`. `write` is Write, `subscribe_since` subscribeSince,
--   `cancel` the closure that it returns, `close` close, `append_ring` appendRing,
--   `compute_replay` computeReplay. Each runs under the broker's mutex, so a list of operations
--   is an interleaving. Attach/Copy is copyStream. Attach/Ring, Live, Delivery, Safety, World,
--   Leaving, Joining, Draining and Stream are the proofs.
-- - Manager: State is the data, Launch is Start, Watch is watch, Stop, Get, List, Shutdown and
--   WaitSession, Clients is AttachWith, SendInput, Resize, JsonRpcCall and Health, and Moves
--   makes schedules of them: a goroutine's work between two waits is one step, and what a
--   Runtime or a Session answers is an argument of the step. Counting, Invariant, Announce,
--   Registering, Delivering, Attaching, Exits, Reuse, Telling, Transitions and Lives are the
--   proofs.
-- - Lifecycle: the flags, validateLifecycle and NewFromAdapter; Lifecycle/Selection has the
--   proof.
-- - Supervision: causes, buildExitError, restartEligible, computeRestartBackoff and the loop of
--   runSupervised, for any sequence of ends of the child. Backoff, Causes, Restarts and Recovery
--   are the proofs.
-- - JsonRpc: the JSON-RPC client of agentsessions/jsonrpc_stdio_session.go: Call in the steps
--   `call`, `send_phase`, `resume_phase` and `cancel_phase`, `read_line` and `dispatch` for
--   runReaderLoop, deliverResponse, respondToServerRequest, failPendingOnClose and Stop. JSON
--   and the hooks are parameters. Life is what a Call may go through. Spawning is spawnAttempt;
--   Hosting has the session with its child, and Clients what clients call; ErrorText is the text
--   of an error. Pending, Calls, Replies, Answers, Refines, Unanswered, Alike, Starting and Ends
--   are the proofs.
-- - Turns: the session of agentsessions/from_provider.go, with SendInput in two steps,
--   `begin_turn` and `finish_turn`, around what the provider answers; Turns/Replies has the
--   proofs.
-- - Spawn: StartOptions, and applyResourceLimits (agentsessions/wraparg_unix.go) with its shell
--   and systemd-run wrapping; Spawn/Attempt is what the sessions' spawnAttempt have in common,
--   and the steps by which an attempt takes and gives back resources. Spawn/Wrapped has the
--   proofs.
-- - Child: what the sessions of one long-lived child share. Reading is runReaderLoop with
--   bufio.Scanner, Ending the waiters, Watching the goroutines of waitOnceSupervised as a state
--   machine: an interleaving is a list of happenings; Restarting is runSupervised over the
--   session, with the spawn and what an attempt gives back as arguments. Lines, Output,
--   Resuming, Killing, Lively and Idle are the proofs.
-- - Stdio: agentsessions/streaming_stdio_session.go, with spawnAttempt in Spawning, and Start,
--   Stop, SendInput and the small methods in Clients, and what runSupervised needs of the pipes
--   in Restarting; Steps, Held, Starting and Framing are the proofs.
-- - Pty: agentsessions/pty_session.go in the same way, in Attempt, Restarting, Goroutines and
--   Clients; Held, Starting and Released are the proofs.
-- - Serve: agentsessions/serve_http_session.go. Scanning finds the URL in the child's output,
--   Events is the stream of server-sent events, Spawning is spawn, Starting is Start with
--   waitHealthy and createSession, and Clients has SendInput in two steps around its request,
--   `begin_turn` and `finish_turn`, Stop and the end of the process. Framing and Turns are the
--   proofs.
-- - Compliance: compliance/compliance.go. Runtime is the interface of runtimes and sessions
--   (agentsessions/types.go) as a record of operations, `run` the suite with its verdicts, and
--   Contract what a runtime has to promise. Providers and Pipes have two of the runtimes.
-- - Boot: agentsessions/bootdir_planting.go, with the texts in Texts and preparePlant in
--   Planting, which lists what it does to the file system; Names and Cleaning are the proofs.
-- - PerTurn: the session of agentsessions/from_adapter.go that runs a program for each turn,
--   with SendInput in two steps around the run; PerTurn/Conversation has the proofs.
-- - The Examples modules apply the theorems at concrete inputs, and hold tests.
--
-- Only Prelude/Texts has fuel: `decimal` stops at 20 digits, as many as a 64-bit number has
-- (Prelude/Decimal). Otherwise there is none: the restart loop recurses on the restarts that are
-- left, and everything else on the lists that it is given. Go's int is unbounded here, except in
-- the product of computeRestartBackoff, which wraps at 64 bits, and in the exit codes that the
-- sessions store as int32; byte positions are natural numbers, where the code has an int64 that
-- a session would need 2 ^ 63 bytes of output to exceed.
--
-- Not modelled: processes, signals, terminals and files, whose answers are arguments; locks; the
-- adapters' parsers; HTTP, JSON and URLs, which are parameters. The result of planting a
-- directory is an argument of Start.
pub mod Attach
pub mod Boot
pub mod Child
pub mod Compliance
pub mod JsonRpc
pub mod Lifecycle
pub mod Manager
pub mod PerTurn
pub mod Prelude
pub mod Pty
pub mod Serve
pub mod Spawn
pub mod Stdio
pub mod Supervision
pub mod Turns
