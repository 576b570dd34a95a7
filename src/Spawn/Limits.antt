-- ===== src/Spawn/Limits.antt =====
-- applyResourceLimits of agentsessions/wraparg_unix.go: the command is wrapped in a shell that sets
-- ulimits, and that in systemd-run.
use go_agent_sessions.Prelude.{
  ℕ, zero, suc, ◌+◌, ◌-◌, ◌*◌, ◌/◌, ◌%◌, ◌^◌, leb, max, Bool, true, false, not, ◌&&◌, Option, none,
  some, List, [], ◌∷◌, ◌++◌, if◌then◌else◌, ltb,
}
use go_agent_sessions.Prelude.Int.{ℤ, pos, negsuc}
use go_agent_sessions.Prelude.Texts.{Bytes, codes, decimal, is_blank}
use go_agent_sessions.Supervision.{second}
use go_agent_sessions.Spawn.Options.{ResourceLimits, is_unlimited, Command}

-- runtime.GOOS, as far as the code asks.
pub data Goos : Type 0 where
  linux darwin other_os : Goos

-- exec.LookPath on sh and systemd-run, and whether `systemd-run --user --version` succeeds.
pub record Host : Type 0 where
  pub goos : Goos
  pub sh : Option Bytes
  pub systemd_run : Option Bytes
  pub systemd_probe : Bool

is_linux : Goos → Bool
is_linux linux = true
is_linux darwin = false
is_linux other_os = false

unfoldable pub is_darwin : Goos → Bool
is_darwin linux = false
is_darwin darwin = true
is_darwin other_os = false

-- systemdRunUserAvailable
unfoldable pub systemd_run_user_available : Host → Bool
unfolding is_linux
systemd_run_user_available h =
    if not (is_linux h.goos)
    then false
    else elim h.systemd_run [ none ↦ false | some path ↦ h.systemd_probe ]

-- One `ulimit -<flag> <value>`.
pub record Ulimit : Type 0 where
  pub flag : ℕ
  pub value : ℕ

-- `if limits.X > 0 { ulimitParts = append(...) }`
unfoldable pub when_positive : ℕ → Ulimit → List Ulimit
when_positive n u = if ltb 0 n then u ∷ [] else []

-- CPUTime; nothing where it is not positive.
unfoldable pub cpu_nanoseconds : ℤ → ℕ
cpu_nanoseconds (pos n) = n
cpu_nanoseconds (negsuc n) = 0

-- The greatest power of two that is at most `n`, of the first `fuel`; 1 where there is none.
unfoldable pub top_bit : ℕ → ℕ → ℕ
top_bit zero n = 1
top_bit (suc fuel) n = let rest = top_bit fuel (n / 2) in if ltb n 2 then 1 else 2 * rest

-- int(CPUTime.Seconds()). Seconds adds the whole seconds and the rest as float64 numbers: the sum
-- is the next whole number where the rest is nearer to it than to the float64 below it, whose
-- distance is 2 ^ -52 of the greatest power of two in the seconds. An int64 has less than 2 ^ 34
-- seconds.
unfoldable pub cpu_seconds : ℕ → ℕ
unfolding top_bit
cpu_seconds d =
    let sec = d / second in
    let missing = second - d % second in
    if leb (missing * 2 ^ 53) (second * top_bit 64 sec) then sec + 1 else sec

-- useSystemdMemory
unfoldable pub uses_systemd : Host → ResourceLimits → Bool
unfolding is_linux
uses_systemd h l = ltb 0 l.memory_max && is_linux h.goos && systemd_run_user_available h

unfoldable pub ulimits : Host → ResourceLimits → List Ulimit
unfolding when_positive cpu_nanoseconds cpu_seconds is_darwin
ulimits h l =
    when_positive (cpu_nanoseconds l.cpu_time)
      (record { flag = b't'; value = max 1 (cpu_seconds (cpu_nanoseconds l.cpu_time)) })
    ++ (if not (uses_systemd h l) && not (is_darwin h.goos)
        then when_positive l.memory_max
            (record { flag = b'v'; value = max 1 (l.memory_max / 1024) })
        else [])
    ++ when_positive l.max_open_files (record { flag = b'n'; value = l.max_open_files })
    ++ when_positive l.max_processes (record { flag = b'u'; value = l.max_processes })
    ++ when_positive l.max_file_size
        (record { flag = b'f'; value = max 1 (l.max_file_size / 1024) })

print : Ulimit → Bytes
print u = codes "ulimit -" ++ u.flag ∷ b' ' ∷ decimal u.value

-- strings.Join(parts, "; ") + `; exec "$@"`
unfoldable pub script : List Ulimit → Bytes
unfolding print
script [] = codes "exec \"$@\""
script (u ∷ us) = print u ++ codes "; " ++ script us

-- origArgs[1:]
unfoldable pub tail : List Bytes → List Bytes
tail [] = []
tail (x ∷ xs) = xs

unfoldable pub wrap_shell : Bytes → List Ulimit → Command → Command
unfolding script tail
wrap_shell sh us cmd = if is_blank us then cmd else record cmd {
  path = sh;
  args = sh ∷ codes "-c" ∷ script us ∷ codes "sh" ∷ cmd.path ∷ tail cmd.args;
}

-- srPath, _ := exec.LookPath("systemd-run")
unfoldable pub path_or_empty : Option Bytes → Bytes
path_or_empty none = []
path_or_empty (some path) = path

unfoldable pub wrap_systemd : Host → ResourceLimits → Command → Command
unfolding path_or_empty
wrap_systemd h l cmd = if not (uses_systemd h l) then cmd else record cmd {
  path = path_or_empty h.systemd_run;
  args =
      path_or_empty h.systemd_run
      ∷ codes "--user"
      ∷ codes "--scope"
      ∷ codes "--quiet"
      ∷ (codes "--property=MemoryMax=" ++ decimal l.memory_max)
      ∷ codes "--"
      ∷ cmd.args;
}

unfoldable pub limited : Host → ResourceLimits → Command → Option Command
limited h l cmd = if is_unlimited l then some cmd else elim h.sh [
  | none ↦ none
  | some sh ↦ some (wrap_systemd h l (wrap_shell sh (ulimits h l) cmd))
]

-- applyResourceLimits; `none` is its error, that there is no sh.
unfoldable pub apply_resource_limits : Host → Option ResourceLimits → Command → Option Command
unfolding limited
apply_resource_limits h none cmd = some cmd
apply_resource_limits h (some l) cmd = limited h l cmd
