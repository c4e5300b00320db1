-- ===== src/Proxy.antt =====
-- `muditm_proxy` of proxy.c: the matching loop, the service of one readable side, and the poll loop
-- with the NEW-ENVIRON fallback.
pub mod Session
pub mod Received
pub mod Bounds
pub mod Ends
pub mod Service
pub mod Transparent
pub mod Carries
pub mod Piped
pub mod Pipeline
pub mod Flows
pub mod Plain
pub mod Drained
pub mod Loop
pub mod Start
pub mod Returns
pub mod Whole
pub mod Faults
pub mod Fallback
pub mod Waits
use mudit_m.Base.{
  ℕ, zero, suc, ◌+◌, ◌-◌, Bool, true, false, Option, none, some, List, [], ◌∷◌, ltb, leb, get_elem?,
  if◌then◌else◌,
}
use mudit_m.Libs.{Libs, MatchResult, nomatch, partial, found, failed}
use mudit_m.Posix.{Ret, Errno, eagain, other_errno}
use mudit_m.Iobuf.{Iobuf, memcpy_tail, push_iobuf, popall_iobuf, avail_iobuf, len_iobuf, peek_iobuf}
use mudit_m.Run.{Run, ok, stray, spins, in_bounds, ◌>>=◌}
use mudit_m.Conf.{KeyFile}
use mudit_m.Endpoint.{Endpoint, Pattern, PatternAction}
use mudit_m.Endpoint.Io.{read_endpoint, write_endpoint}
use mudit_m.Handlers.{pop_match}
use mudit_m.Handlers.Patterns.{run_action}

-- `g_list_nth_data(patterns, ret-2)`: a code below 2 gives an index past every list.
abbrev pub pattern_at : List Pattern → ℕ → Option Pattern
pattern_at patterns code = if ltb code 2 then none else get_elem? patterns (code - 2)

-- The bytes that `read_endpoint` has written at the tail, and the push of their number.
unfoldable pub receive : Iobuf → List ℕ → ℕ → Run Iobuf
receive iob bytes n = do
  written ← in_bounds stray (memcpy_tail iob bytes)
  ok (push_iobuf written n)

module _ (L : Libs) where
  -- The call of `pcre2_match` on the input buffer. With no expression it returns an error.
  unfoldable pub run_match : Endpoint L → MatchResult
  run_match ep =
      if ep.matching_enabled
      then elim ep.re [
        | none ↦ failed 0 0
        | some re ↦ L.pcre2_match re (peek_iobuf ep.iobuf_in (len_iobuf ep.iobuf_in))
      ]
      else nomatch

  -- "ship all of the bytes up to, but not including, the match."
  unfoldable pub ship : ℕ → Endpoint L → Endpoint L → Run (Endpoint L × Endpoint L)
  ship zero from to = ok (from, to)
  ship (suc n) from to = do
    (_, to') ← write_endpoint L to (peek_iobuf from.iobuf_in (suc n))
    ok (pop_match L (suc n) from, to')

  -- The call of an action; a NULL one handles nothing.
  abbrev pub handle_by :
      KeyFile
      → Option PatternAction
      → ℕ
      → Endpoint L
      → Endpoint L
      → Run (Bool × Endpoint L × Endpoint L)
  handle_by gkf none match_len from to = ok (false, from, to)
  handle_by gkf (some action) match_len from to = run_action L gkf action match_len from to

  -- The action of the pattern that matched; 0 if there is none.
  unfoldable pub handle :
      KeyFile → Option Pattern → ℕ → Endpoint L → Endpoint L → Run (Bool × Endpoint L × Endpoint L)
  handle gkf none match_len from to = ok (false, from, to)
  handle gkf (some p) match_len from to = handle_by gkf p.action match_len from to

  -- "if(!handled)": the match is copied over and taken off the input.
  unfoldable pub forward_unless : Bool → ℕ → Endpoint L → Endpoint L → Run (Endpoint L × Endpoint L)
  forward_unless true match_len from to = ok (from, to)
  forward_unless false match_len from to = do
    (_, to') ← write_endpoint L to (peek_iobuf from.iobuf_in match_len)
    ok (pop_match L match_len from, to')

  -- The branch for a match, from its code and bounds.
  unfoldable pub on_match :
      KeyFile → Option Pattern → ℕ → ℕ → Endpoint L → Endpoint L → Run (Endpoint L × Endpoint L)
  on_match gkf p start end from to = do
    (from1, to1) ← ship start from to
    (handled, from2, to2) ← handle gkf p (end - start) from1 to1
    forward_unless handled (end - start) from2 to2

  -- The pcre2 matching loop over the input of `from`, on fuel.
  unfoldable pub match_loop : KeyFile → ℕ → Endpoint L → Endpoint L → Run (Endpoint L × Endpoint L)
  match_loop gkf zero from to = spins
  match_loop gkf (suc fuel) from to = elim (run_match from) [
    | nomatch ↦ do
      (_, to') ← write_endpoint L to (peek_iobuf from.iobuf_in (len_iobuf from.iobuf_in))
      ok (record from { iobuf_in = popall_iobuf from.iobuf_in }, to')
    | partial ↦ ok (from, to)
    | found code start end ↦ do
      (from', to') ← on_match gkf (pattern_at from.patterns code) start end from to
      elim (ltb 0 (len_iobuf from'.iobuf_in)) [
        | true ↦ match_loop gkf fuel from' to'
        | false ↦ ok (from', to')
      ]
    | failed start end ↦ do
      (from', to') ← on_match gkf none start end from to
      elim (ltb 0 (len_iobuf from'.iobuf_in)) [
        | true ↦ match_loop gkf fuel from' to'
        | false ↦ ok (from', to')
      ]
  ]

  -- What becomes of the loop after one side was served: it goes on, or `ret` ends the proxy.
  pub data Served : Type 0 where
    goes_on : Endpoint L → Endpoint L → Served
    ends : (ret : Ret) → Endpoint L → Endpoint L → Served

  -- The branches on what the read returned.
  unfoldable pub after_read : KeyFile → Ret → List ℕ → Endpoint L → Endpoint L → Run Served
  after_read gkf (Ret.failed eagain) bytes from to = ok (goes_on from to)
  after_read gkf (Ret.failed other_errno) bytes from to = ok (ends (Ret.failed other_errno) from to)
  after_read gkf (Ret.count zero) bytes from to = ok (ends (Ret.count 1) from to)
  after_read gkf (Ret.count (suc n)) bytes from to = do
    pushed ← receive from.iobuf_in bytes (suc n)
    let from' = record from { iobuf_in = pushed }
    (from'', to') ← match_loop gkf (suc (len_iobuf from'.iobuf_in)) from' to
    ok (goes_on from'' to')

  -- One entry of `pollster` with POLLIN set: `from` is `flow[i].in`, `to` is `flow[i].out`.
  unfoldable pub serve : KeyFile → Endpoint L → Endpoint L → Run Served
  serve gkf from to = do
    (bytes_recv, bytes, from') ← read_endpoint L from (avail_iobuf from.iobuf_in)
    after_read gkf bytes_recv bytes from' to
