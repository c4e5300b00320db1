-- ===== src/Handlers.antt =====
-- handlers.c and the actions of mccp.c: what is done with a matched pattern. In the calls of the
-- proxy the buffer `iob` is the input buffer of `from`. An action takes the length of the match,
-- `from` and `to`, and returns whether it has consumed the match, and both endpoints.
pub mod Mnes
pub mod Mccp
pub mod Patterns
pub mod Drained
pub mod Bounds
pub mod Actions
pub mod Tame
pub mod Answers
pub mod Replies
pub mod Requests
pub mod Faults
use mudit_m.Base.{ℕ, Bool, true, false, List, [], ◌∷◌, ◌++◌, codes}
use mudit_m.Telnet.{iac, sb, se, telopt_new_environ, telqual_is, new_env_var, new_env_value}
use mudit_m.Libs.{Libs}
use mudit_m.Iobuf.{pop_iobuf, print_iobuf, append_iobuf}
use mudit_m.Run.{Run, ok, ◌>>=◌, in_bounds, no_space}
use mudit_m.Endpoint.{Endpoint}
use mudit_m.Endpoint.Io.{flush_endpoint}

-- The text that `snprintf_mnes_pair` prints.
abbrev pub mnes_pair : List ℕ → List ℕ → List ℕ
mnes_pair var val =
    iac
    ∷ sb
    ∷ telopt_new_environ
    ∷ telqual_is
    ∷ new_env_var
    ∷ (var ++ (new_env_value ∷ (val ++ (iac ∷ se ∷ []))))

-- `get_proxy_name`: MUDITM_SHORTNAME and the version.
abbrev pub proxy_name : List ℕ
proxy_name = codes "MUDitM-1.0"

module _ (L : Libs) where
  -- `pop_iobuf(iob, match_len)`.
  abbrev pub pop_match : ℕ → Endpoint L → Endpoint L
  pop_match match_len from = record from { iobuf_in = pop_iobuf from.iobuf_in match_len }

  -- `snprintf` to the tail of the output buffer and `push_iobuf` of what it returned.
  abbrev pub print_out : List ℕ → Endpoint L → Endpoint L
  print_out text ep = record ep { iobuf_out = print_iobuf ep.iobuf_out text }

  -- `memcpy` of a message to the tail of the output buffer, `push_iobuf` and `flush_endpoint`.
  abbrev pub send_out : List ℕ → Endpoint L → Run (Endpoint L)
  send_out message ep = do
    out ← in_bounds no_space (append_iobuf ep.iobuf_out message)
    (_, ep') ← flush_endpoint L (record ep { iobuf_out = out })
    ok ep'

  unfoldable pub enable_matching : Endpoint L → Endpoint L
  enable_matching ep = record ep { matching_enabled = true }

  unfoldable pub disable_matching : Endpoint L → Endpoint L
  disable_matching ep = record ep { matching_enabled = false }

  unfoldable pub remove_match : ℕ → Endpoint L → Endpoint L → Run (Bool × Endpoint L × Endpoint L)
  remove_match match_len from to = ok (true, pop_match match_len from, to)

  unfoldable pub redact_match : ℕ → Endpoint L → Endpoint L → Run (Bool × Endpoint L × Endpoint L)
  redact_match match_len from to = do
    (_, to') ← flush_endpoint L (print_out (codes "REDACTED") to)
    ok (true, pop_match match_len from, to')
