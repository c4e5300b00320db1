-- ===== src/Handlers/Mnes.antt =====
-- The actions of handlers.c for NEW-ENVIRON (MNES), and `respond_X` with its three callers.
use mudit_m.Base.{
  ℕ, Bool, true, false, none, some, List, [], ◌∷◌, codes, get_elem?, ◌==◌, if◌then◌else◌,
}
use mudit_m.Telnet.{iac, will, wont, do_cmd, dont, telopt_new_environ}
use mudit_m.Libs.{Libs}
use mudit_m.Run.{Run, ok, ◌>>=◌, in_bounds, stray}
use mudit_m.Conf.{KeyFile}
use mudit_m.Endpoint.{Endpoint, MccpNego, nego_accepted}
use mudit_m.Endpoint.Io.{flush_endpoint, addr_endpoint}
use mudit_m.Handlers.{mnes_pair, proxy_name, pop_match, print_out, send_out}

-- What a client sends that will do NEW-ENVIRON.
abbrev pub mnes_will : List ℕ
mnes_will = iac ∷ will ∷ telopt_new_environ ∷ []

-- The value that COMPRESSION is reported with.
abbrev pub compression_status : MccpNego → List ℕ
compression_status nego_accepted = codes "MCCP2"
compression_status _ = codes "none"

module _ (L : Libs) where
  -- The loop over `ipreportlist`.
  abbrev pub print_reports : List (List ℕ) → List ℕ → Endpoint L → Endpoint L
  print_reports [] addrtxt ep = ep
  print_reports (var ∷ vars) addrtxt ep =
      print_reports vars addrtxt (print_out L (mnes_pair var addrtxt) ep)

  -- All that `mnes_request` prints to the output buffer of `from`.
  abbrev pub queue_reports : KeyFile → Endpoint L → Endpoint L → Endpoint L
  queue_reports gkf from to =
      let from1 = print_out L (mnes_pair (codes "PROXY_NAME") proxy_name) from in
      let from2 =
        print_out L (mnes_pair (codes "COMPRESSION") (compression_status to.mccp_nego)) from1 in
      elim (gkf.get_string_list "muditm" "newenv_ipaddress") [
        | none ↦ from2
        | some vars ↦ print_reports vars (addr_endpoint to.wire.peer) from2
      ]

  unfoldable pub mnes_request :
      KeyFile → ℕ → Endpoint L → Endpoint L → Run (Bool × Endpoint L × Endpoint L)
  mnes_request gkf match_len from to = do
    (_, from') ← flush_endpoint L (queue_reports gkf from to)
    ok (
        if to.mnes_state == wont
        then (true, pop_match L match_len from', to)
        else (false, from', to))

  unfoldable pub mnes_client_will :
      ℕ → Endpoint L → Endpoint L → Run (Bool × Endpoint L × Endpoint L)
  mnes_client_will match_len from to = ok (false, record from { mnes_state = will }, to)

  unfoldable pub mnes_client_wont :
      ℕ → Endpoint L → Endpoint L → Run (Bool × Endpoint L × Endpoint L)
  mnes_client_wont match_len from to = do
    let from' = pop_match L match_len (record from { mnes_state = wont })
    to' ← send_out L mnes_will to
    ok (true, from', to')

  unfoldable pub mnes_does : ℕ → Endpoint L → Endpoint L → Run (Bool × Endpoint L × Endpoint L)
  mnes_does match_len from to = ok (false, record from { mnes_state = do_cmd }, to)

  -- `X` is DONT, DO or WONT. The third byte of the match is read wherever the match ends.
  unfoldable pub respond_x : ℕ → Endpoint L → Endpoint L → ℕ → Run (Bool × Endpoint L × Endpoint L)
  respond_x match_len from to x = do
    proto ← in_bounds stray (get_elem? from.iobuf_in.block 2)
    (_, from') ← flush_endpoint L (print_out L (iac ∷ x ∷ proto ∷ []) from)
    ok (true, pop_match L match_len from', to)

  unfoldable pub respond_dont : ℕ → Endpoint L → Endpoint L → Run (Bool × Endpoint L × Endpoint L)
  respond_dont match_len from to = respond_x match_len from to dont

  unfoldable pub respond_do : ℕ → Endpoint L → Endpoint L → Run (Bool × Endpoint L × Endpoint L)
  respond_do match_len from to = respond_x match_len from to do_cmd

  unfoldable pub respond_wont : ℕ → Endpoint L → Endpoint L → Run (Bool × Endpoint L × Endpoint L)
  respond_wont match_len from to = respond_x match_len from to wont
