-- ===== src/Handlers/Mccp.antt =====
-- The actions of mccp.c for MCCP2 compression, and its `offer_compression`.
use mudit_m.Base.{ℕ, Bool, true, false, Option, none, some, List, [], ◌∷◌, codes}
use mudit_m.Telnet.{iac, sb, se, will, telopt_mccp2}
use mudit_m.Libs.{Libs}
use mudit_m.Run.{Run, ok, ◌>>=◌}
use mudit_m.Endpoint.{Endpoint, mccp_enable, nego_accepted, nego_offered, nego_refused, MccpMode}
use mudit_m.Endpoint.Io.{flush_endpoint}
use mudit_m.Handlers.{mnes_pair, pop_match, print_out, send_out, disable_matching}

abbrev pub mccp2_offer : List ℕ
mccp2_offer = iac ∷ will ∷ telopt_mccp2 ∷ []

abbrev pub mccp2_begin : List ℕ
mccp2_begin = iac ∷ sb ∷ telopt_mccp2 ∷ iac ∷ se ∷ []

module _ (L : Libs) where
  abbrev pub offer_in_mode : MccpMode → Endpoint L → Run (Endpoint L)
  offer_in_mode mccp_enable ep = do
    ep' ← send_out L mccp2_offer ep
    ok (record ep' { mccp_nego = nego_offered })
  offer_in_mode _ ep = ok ep

  unfoldable pub offer_compression : Endpoint L → Run (Endpoint L)
  offer_compression ep = offer_in_mode ep.mccp_mode ep

  -- `mccp_ignore` of the source.
  unfoldable pub ignore_match : ℕ → Endpoint L → Endpoint L → Run (Bool × Endpoint L × Endpoint L)
  ignore_match match_len from to = ok (false, disable_matching L from, to)

  -- The pair that tells the game what became of the negotiation.
  abbrev pub report_compression : List ℕ → Endpoint L → Run (Endpoint L)
  report_compression status to = do
    (_, to') ← flush_endpoint L (print_out L (mnes_pair (codes "COMPRESSION") status) to)
    ok to'

  -- `mccp2_do` behind its guard, with a stream that `deflateInit` has set up.
  abbrev pub start_output :
      L.Deflater → Endpoint L → Endpoint L → Run (Bool × Endpoint L × Endpoint L)
  start_output z from to = do
    from' ← send_out L mccp2_begin from
    to' ← report_compression (codes "MCCP2") to
    ok (true, record from' { mccp_out = some z; mccp_nego = nego_accepted }, to')

  -- `mccp2_do` behind its guard, by what `deflateInit` gives.
  abbrev pub begin_output :
      Option L.Deflater → Endpoint L → Endpoint L → Run (Bool × Endpoint L × Endpoint L)
  begin_output none from to = ok (false, from, to)
  begin_output (some z) from to = start_output z from to

  -- `mccp2_do` once the match is popped, by the output stream that there is: the guard against a
  -- second DO.
  abbrev pub answer_do :
      Option L.Deflater → Endpoint L → Endpoint L → Run (Bool × Endpoint L × Endpoint L)
  answer_do (some _) from to = ok (true, record from { mccp_nego = nego_accepted }, to)
  answer_do none from to = begin_output L.deflate_init from to

  unfoldable pub mccp2_do : ℕ → Endpoint L → Endpoint L → Run (Bool × Endpoint L × Endpoint L)
  mccp2_do match_len from to = answer_do from.mccp_out (pop_match L match_len from) to

  unfoldable pub mccp2_dont : ℕ → Endpoint L → Endpoint L → Run (Bool × Endpoint L × Endpoint L)
  mccp2_dont match_len from to = do
    let from' = pop_match L match_len from
    to' ← report_compression (codes "none") to
    ok (true, record from' { mccp_out = none; mccp_nego = nego_refused }, to')

  unfoldable pub mccp2_sb_start : ℕ → Endpoint L → Endpoint L → Run (Bool × Endpoint L × Endpoint L)
  mccp2_sb_start match_len from to =
      let popped = pop_match L match_len from in
      elim L.inflate_init [
        | none ↦ ok (false, popped, to)
        | some z ↦
            ok (true, record popped { mccp_in = some (record { state = z; next_in = [] }) }, to)
      ]
