-- ===== src/Serve/Scanning.antt =====
-- scanProcessOutput and parseServeHTTPListenURL of agentsessions/serve_http_session.go. White
-- space and the cut set are ASCII here; url.ParseRequestURI is a parameter.
use go_agent_sessions.Prelude.{
  ℕ, Bool, true, false, ◌&&◌, ◌||◌, Option, none, some, [], ◌∷◌, ◌++◌, if◌then◌else◌, nat_eq, ◌==◌,
}
use go_agent_sessions.Prelude.Texts.{Bytes, codes, is_blank}
use go_agent_sessions.Child.Reading.{newline}
use go_agent_sessions.Serve.{ServeSession, write_output}

-- strings.HasPrefix, and strings.TrimPrefix.
unfoldable pub has_prefix : Bytes → Bytes → Bool
has_prefix [] s = true
has_prefix (p ∷ ps) [] = false
has_prefix (p ∷ ps) (c ∷ cs) = p == c && has_prefix ps cs

drop_prefix : Bytes → Bytes → Bytes
drop_prefix [] s = s
drop_prefix (p ∷ ps) [] = []
drop_prefix (p ∷ ps) (c ∷ cs) = drop_prefix ps cs

unfoldable pub trim_prefix : Bytes → Bytes → Bytes
unfolding drop_prefix
trim_prefix p s = if has_prefix p s then drop_prefix p s else s

-- line[strings.Index(line, p):], where there is an index.
unfoldable pub from_index : Bytes → Bytes → Option Bytes
from_index p [] = none
from_index p (c ∷ cs) =
    let rest = from_index p cs in if has_prefix p (c ∷ cs) then some (c ∷ cs) else rest

is_space : ℕ → Bool
is_space c = c == 32 || c == 9 || c == 10 || c == 11 || c == 12 || c == 13

-- strings.Fields(s)[0] of a text that does not begin with white space.
unfoldable pub first_field : Bytes → Bytes
unfolding is_space
first_field [] = []
first_field (c ∷ cs) = let rest = first_field cs in if is_space c then [] else c ∷ rest

is_cut : ℕ → Bool
is_cut c = c == b'.' || c == b',' || c == b';' || c == b')'

-- strings.TrimRight(s, ".,;)")
unfoldable pub trim_right : Bytes → Bytes
unfolding is_cut
trim_right [] = []
trim_right (c ∷ cs) = let rest = trim_right cs in if is_blank rest && is_cut c then [] else c ∷ rest

or_else : Option Bytes → Option Bytes → Option Bytes
or_else none o = o
or_else (some x) o = some x

module _ (parses : Bytes → Bool) where
  listen_url : Option Bytes → Option Bytes
  listen_url none = none
  listen_url (some rest) =
      let raw = trim_right (first_field rest) in if parses raw then some raw else none

  -- `none` is the empty string.
  unfoldable pub parse_serve_http_listen_url : Bytes → Option Bytes
  unfolding listen_url or_else from_index trim_right first_field
  parse_serve_http_listen_url line =
      listen_url (or_else (from_index (codes "http://") line) (from_index (codes "https://") line))

  -- The body of scanProcessOutput: readyURL takes one URL, and drops the rest.
  unfoldable pub scan_line : Bytes → ServeSession → ServeSession
  unfolding write_output parse_serve_http_listen_url
  scan_line line s =
      let t = write_output (line ++ newline ∷ []) s in
      elim (parse_serve_http_listen_url line) [
        | none ↦ t
        | some u ↦ elim t.ready_url [ none ↦ record t { ready_url = some u } | some v ↦ t ]
      ]
