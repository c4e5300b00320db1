-- ===== src/Handlers/Patterns.antt =====
-- The patterns of an endpoint: handlers.c's `add_pattern`, `compile_patterns`, `add_game_patterns` and
-- `add_client_patterns`, mccp.c's two lists by mode, and the call through an action pointer.
pub mod Text
use mudit_m.Base.{
  ℕ, ◌+◌, ◌-◌, ◌^◌, Bool, Option, none, some, List, [], ◌∷◌, ◌++◌, length, take, leb, ◌==◌,
  if◌then◌else◌,
}
use mudit_m.Telnet.{
  iac, sb, se, will, wont, do_cmd, dont, telopt_new_environ, telqual_send, new_env_var, telopt_mccp,
  telopt_mccp2, telopt_mccp3,
}
use mudit_m.Libs.{Libs}
use mudit_m.Run.{Run, ok, overrun, stray, exits, ◌>>=◌}
use mudit_m.Conf.{KeyFile}
use mudit_m.Endpoint.{
  Endpoint, Pattern, PatternAction, MccpMode, mccp_ignore, mccp_disable, mccp_enable,
}
use mudit_m.Handlers.{enable_matching, remove_match, redact_match}
use mudit_m.Handlers.Mnes.{
  mnes_request, mnes_client_will, mnes_client_wont, mnes_does, respond_dont, respond_do,
  respond_wont,
}
use mudit_m.Handlers.Mccp.{ignore_match, mccp2_do, mccp2_dont, mccp2_sb_start}

-- `new_pattern` filled in by `add_pattern`.
abbrev pub pattern_of : List ℕ → PatternAction → Pattern
pattern_of pat action = record { pat = pat; action = some action }

-- What `%.*s` prints of a pattern: the bytes before the first NUL.
abbrev pub c_string : List ℕ → List ℕ
c_string [] = []
c_string (b ∷ bytes) = if b == 0 then [] else b ∷ c_string bytes

-- The text in `buf`, and the offset of `s` in it.
abbrev pub Buffer : Type 0
Buffer = List ℕ × ℕ

abbrev pub buf_size : ℕ
buf_size = 2 ^ 16

-- `s += g_snprintf(s, eos-s, ...)`. Past the end `eos-s` is a huge `size_t`.
unfoldable pub print_text : Buffer → List ℕ → Run Buffer
print_text (buf, at) text =
    if leb at buf_size
    then ok (buf ++ take (buf_size - at - 1) text, at + length text)
    else overrun stray

-- The loop over the list.
unfoldable pub print_patterns : List Pattern → Buffer → Run Buffer
print_patterns [] b = ok b
print_patterns (m ∷ rest) (buf, at) = do
  b ← if at == 0 then ok (buf, at) else print_text (buf, at) (b'|' ∷ [])
  b' ← print_text b (b'(' ∷ (c_string m.pat ++ (b')' ∷ [])))
  print_patterns rest b'

-- The patterns that `add_mccp_game_patterns` adds in each mode.
abbrev pub mccp_game_patterns : MccpMode → List Pattern
mccp_game_patterns mccp_ignore =
    pattern_of (iac ∷ sb ∷ telopt_mccp ∷ iac ∷ se ∷ []) PatternAction.ignore_match
    ∷ pattern_of (iac ∷ sb ∷ telopt_mccp2 ∷ iac ∷ se ∷ []) PatternAction.ignore_match
    ∷ pattern_of (iac ∷ sb ∷ telopt_mccp3 ∷ iac ∷ se ∷ []) PatternAction.ignore_match
    ∷ []
mccp_game_patterns mccp_disable =
    pattern_of (iac ∷ will ∷ telopt_mccp ∷ []) PatternAction.respond_dont
    ∷ pattern_of (iac ∷ will ∷ telopt_mccp2 ∷ []) PatternAction.respond_dont
    ∷ pattern_of (iac ∷ will ∷ telopt_mccp3 ∷ []) PatternAction.respond_dont
    ∷ []
mccp_game_patterns mccp_enable =
    pattern_of (iac ∷ will ∷ telopt_mccp2 ∷ []) PatternAction.respond_do
    ∷ pattern_of (iac ∷ sb ∷ telopt_mccp2 ∷ iac ∷ se ∷ []) PatternAction.mccp2_sb_start
    ∷ []

-- Those that `add_mccp_client_patterns` adds.
abbrev pub mccp_client_patterns : MccpMode → List Pattern
mccp_client_patterns mccp_ignore = []
mccp_client_patterns mccp_disable =
    pattern_of (iac ∷ do_cmd ∷ telopt_mccp ∷ []) PatternAction.respond_wont
    ∷ pattern_of (iac ∷ do_cmd ∷ telopt_mccp2 ∷ []) PatternAction.respond_wont
    ∷ pattern_of (iac ∷ do_cmd ∷ telopt_mccp3 ∷ []) PatternAction.respond_wont
    ∷ []
mccp_client_patterns mccp_enable =
    pattern_of (iac ∷ do_cmd ∷ telopt_mccp2 ∷ []) PatternAction.mccp2_do
    ∷ pattern_of (iac ∷ dont ∷ telopt_mccp2 ∷ []) PatternAction.mccp2_dont
    ∷ []

abbrev pub mnes_game_patterns : List Pattern
mnes_game_patterns =
    pattern_of (iac ∷ sb ∷ telopt_new_environ ∷ telqual_send ∷ iac ∷ se ∷ [])
      PatternAction.mnes_request
    ∷ pattern_of (iac ∷ sb ∷ telopt_new_environ ∷ telqual_send ∷ new_env_var ∷ iac ∷ se ∷ [])
        PatternAction.mnes_request
    ∷ pattern_of (iac ∷ do_cmd ∷ telopt_new_environ ∷ []) PatternAction.mnes_does
    ∷ []

abbrev pub mnes_client_patterns : List Pattern
mnes_client_patterns =
    pattern_of (iac ∷ wont ∷ telopt_new_environ ∷ []) PatternAction.mnes_client_wont
    ∷ pattern_of (iac ∷ will ∷ telopt_new_environ ∷ []) PatternAction.mnes_client_will
    ∷ []

module _ (L : Libs) where
  -- The expression that the library makes of the text; the process ends if there is none.
  unfoldable pub compile_patterns : List Pattern → Run L.Code
  compile_patterns patterns = do
    b ← print_patterns patterns ([], 0)
    elim (L.pcre2_compile b.0) [ none ↦ exits | some re ↦ ok re ]

  -- "finally, install and enable them."
  abbrev pub install : List Pattern → Endpoint L → Run (Endpoint L)
  install patterns ep = do
    re ← compile_patterns patterns
    ok (enable_matching L (record ep { patterns = patterns; re = some re }))

  unfoldable pub add_game_patterns : Endpoint L → Run (Endpoint L)
  add_game_patterns ep =
      install (ep.patterns ++ (mnes_game_patterns ++ mccp_game_patterns ep.mccp_mode)) ep

  unfoldable pub add_client_patterns : Endpoint L → Run (Endpoint L)
  add_client_patterns ep =
      install (ep.patterns ++ (mnes_client_patterns ++ mccp_client_patterns ep.mccp_mode)) ep

  -- The call `(p->action)(iob, match_len, from, to, gkf)`.
  unfoldable pub run_action :
      KeyFile → PatternAction → ℕ → Endpoint L → Endpoint L → Run (Bool × Endpoint L × Endpoint L)
  run_action gkf PatternAction.redact_match n from to = redact_match L n from to
  run_action gkf PatternAction.remove_match n from to = remove_match L n from to
  run_action gkf PatternAction.mnes_request n from to = mnes_request L gkf n from to
  run_action gkf PatternAction.mnes_client_will n from to = mnes_client_will L n from to
  run_action gkf PatternAction.mnes_client_wont n from to = mnes_client_wont L n from to
  run_action gkf PatternAction.mnes_does n from to = mnes_does L n from to
  run_action gkf PatternAction.respond_dont n from to = respond_dont L n from to
  run_action gkf PatternAction.respond_do n from to = respond_do L n from to
  run_action gkf PatternAction.respond_wont n from to = respond_wont L n from to
  run_action gkf PatternAction.ignore_match n from to = ignore_match L n from to
  run_action gkf PatternAction.mccp2_do n from to = mccp2_do L n from to
  run_action gkf PatternAction.mccp2_dont n from to = mccp2_dont L n from to
  run_action gkf PatternAction.mccp2_sb_start n from to = mccp2_sb_start L n from to
