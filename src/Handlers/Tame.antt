-- ===== src/Handlers/Tame.antt =====
-- The actions of handlers.c and mccp.c but `mccp2_do`, on sides whose output buffers are empty.
use mudit_m.Base.{
  ℕ, ◌≡◌, refl, sym, Bool, some, List, [], ◌∷◌, codes, arith, Option-cases, inl, inr, Bool-cases,
  ◌==◌,
}
use mudit_m.Libs.{Libs}
use mudit_m.Posix.{Ret}
use mudit_m.Run.{Returns, Returns-bind}
use mudit_m.Telnet.{iac, wont, do_cmd, dont}
use mudit_m.Conf.{KeyFile}
use mudit_m.Endpoint.{Endpoint, PatternAction}
use mudit_m.Endpoint.Io.{flush_endpoint, addr_endpoint}
use mudit_m.Handlers.Bounds.{third_byte}
use mudit_m.Handlers.{
  print_out, send_out, pop_match, mnes_pair, proxy_name, redact_match, remove_match,
  disable_matching,
}
use mudit_m.Handlers.Drained.{
  IsTame, IsFlowing, IsDrained, touched_drained, print_out-IsFlowing, flush_endpoint-IsDrained,
  send_out-IsDrained, pop_match-IsDrained,
}
use mudit_m.Handlers.Mnes.{
  mnes_request, mnes_client_will, mnes_client_wont, mnes_does, respond_x, respond_dont, respond_do,
  respond_wont, print_reports, queue_reports, compression_status, mnes_will,
}
use mudit_m.Handlers.Mccp.{ignore_match, mccp2_dont, mccp2_sb_start, report_compression}
use mudit_m.Handlers.Patterns.{run_action}

module _ (L : Libs) where
  -- Both sides behind an action.
  abbrev pub DrainedBoth : Bool × Endpoint L × Endpoint L → Type 0
  DrainedBoth (handled, from, to) = IsDrained L from × IsDrained L to

  print_reports-IsFlowing :
      (vars : List (List ℕ)) (addrtxt : List ℕ) (ep : Endpoint L)
      → IsFlowing L ep
      → IsFlowing L (print_reports L vars addrtxt ep)
  print_reports-IsFlowing [] addrtxt ep f = f
  print_reports-IsFlowing (var ∷ vars) addrtxt ep f =
      print_reports-IsFlowing vars addrtxt _ (print_out-IsFlowing L (mnes_pair var addrtxt) ep f)

  queue_reports-IsFlowing :
      (gkf : KeyFile) (from to : Endpoint L)
      → IsFlowing L from
      → IsFlowing L (queue_reports L gkf from to)
  queue_reports-IsFlowing gkf from to f =
      let name = mnes_pair (codes "PROXY_NAME") proxy_name in
      let status = mnes_pair (codes "COMPRESSION") (compression_status to.mccp_nego) in
      let two =
        print_out-IsFlowing L status (print_out L name from) (print_out-IsFlowing L name from f) in
      elim (Option-cases (gkf.get_string_list "muditm" "newenv_ipaddress")) [
        | inl unset ↦ rw (unset, queue_reports) two
        | inr (vars, set) ↦
            rw (set, queue_reports)
              (print_reports-IsFlowing vars (addr_endpoint to.wire.peer) _ two)
      ]

  -- Text that is printed for a side and flushed.
  printed :
      (text : List ℕ) (ep : Endpoint L)
      → IsDrained L ep
      → Returns
          (λ (r : Ret × Endpoint L). IsDrained L r.1 × (r.1.iobuf_in ≡ ep.iobuf_in))
          (flush_endpoint L (print_out L text ep))
  printed text ep d =
      flush_endpoint-IsDrained L (print_out L text ep) (print_out-IsFlowing L text ep d.flowing)

  module _ (n : ℕ) (from to : Endpoint L) (f : IsDrained L from) (t : IsDrained L to) where
    popped : IsDrained L (pop_match L n from)
    popped = pop_match-IsDrained L n from f

    mnes_request-Drained : (gkf : KeyFile) → Returns DrainedBoth (mnes_request L gkf n from to)
    unfolding mnes_request
    mnes_request-Drained gkf =
        Returns-bind
          (λ (r : Ret × Endpoint L).
            IsDrained L r.1 × (r.1.iobuf_in ≡ (queue_reports L gkf from to).iobuf_in))
          _ (flush_endpoint L (queue_reports L gkf from to)) _
          (flush_endpoint-IsDrained L (queue_reports L gkf from to)
            (queue_reports-IsFlowing gkf from to f.flowing))
          (λ (ret, from') k. elim (Bool-cases (to.mnes_state == wont)) [
            | inl refused ↦ rw refused (pop_match-IsDrained L n from' k.0, t)
            | inr other ↦ rw other (k.0, t)
          ])

    respond_x-Drained : (x : ℕ) → Returns DrainedBoth (respond_x L n from to x)
    unfolding respond_x
    respond_x-Drained x =
        let (proto, e) = third_byte from.iobuf_in.block f.flowing.in_room in
        rw e (
          Returns-bind (λ (r : Ret × Endpoint L). IsDrained L r.1 × (r.1.iobuf_in ≡ from.iobuf_in))
            _ (flush_endpoint L (print_out L (iac ∷ x ∷ proto ∷ []) from)) _
            (printed (iac ∷ x ∷ proto ∷ []) from f)
            (λ (ret, from') k. (pop_match-IsDrained L n from' k.0, t)))

    redact_match-Drained : Returns DrainedBoth (redact_match L n from to)
    unfolding redact_match
    redact_match-Drained =
        Returns-bind (λ (r : Ret × Endpoint L). IsDrained L r.1 × (r.1.iobuf_in ≡ to.iobuf_in)) _
          (flush_endpoint L (print_out L (codes "REDACTED") to)) _ (printed (codes "REDACTED") to t)
          (λ r k. (popped, k.0))

    mnes_client_wont-Drained : Returns DrainedBoth (mnes_client_wont L n from to)
    unfolding mnes_client_wont
    mnes_client_wont-Drained =
        Returns-bind (λ to'. IsDrained L to' × (to'.iobuf_in ≡ to.iobuf_in)) _
          (send_out L mnes_will to) _ (send_out-IsDrained L mnes_will to (omega arith) t)
          (λ to' k. (touched_drained L (pop_match L n from) _ popped refl refl refl refl refl, k.0))

    mccp2_dont-Drained : Returns DrainedBoth (mccp2_dont L n from to)
    unfolding mccp2_dont
    mccp2_dont-Drained =
        let text = mnes_pair (codes "COMPRESSION") (codes "none") in
        Returns-bind (λ to'. IsDrained L to') _ (report_compression L (codes "none") to) _
          (Returns-bind (λ (r : Ret × Endpoint L). IsDrained L r.1 × (r.1.iobuf_in ≡ to.iobuf_in)) _
            (flush_endpoint L (print_out L text to)) _ (printed text to t) (λ r k. k.0))
          (λ to' k. (
            touched_drained L (pop_match L n from) _ popped refl refl (sym popped.flowing.plain)
                refl refl,
            k,
          ))

    mccp2_sb_start-Drained : Returns DrainedBoth (mccp2_sb_start L n from to)
    unfolding mccp2_sb_start
    mccp2_sb_start-Drained = elim (Option-cases L.inflate_init) [
      | inl unable ↦ rw (unable, mccp2_sb_start) (popped, t)
      | inr (z, able) ↦
          rw (able, mccp2_sb_start)
            (touched_drained L (pop_match L n from) _ popped refl refl refl refl refl, t)
    ]

    -- Every action but the one that starts compression.
    pub run_action-Drained :
        (gkf : KeyFile) (action : PatternAction)
        → IsTame (some action)
        → Returns DrainedBoth (run_action L gkf action n from to)
    unfolding run_action respond_dont respond_do respond_wont remove_match mnes_client_will
        mnes_does ignore_match disable_matching
    run_action-Drained gkf PatternAction.redact_match h = redact_match-Drained
    run_action-Drained gkf PatternAction.remove_match h = (popped, t)
    run_action-Drained gkf PatternAction.mnes_request h = mnes_request-Drained gkf
    run_action-Drained gkf PatternAction.mnes_client_will h =
        (touched_drained L from _ f refl refl refl refl refl, t)
    run_action-Drained gkf PatternAction.mnes_client_wont h = mnes_client_wont-Drained
    run_action-Drained gkf PatternAction.mnes_does h =
        (touched_drained L from _ f refl refl refl refl refl, t)
    run_action-Drained gkf PatternAction.respond_dont h = respond_x-Drained dont
    run_action-Drained gkf PatternAction.respond_do h = respond_x-Drained do_cmd
    run_action-Drained gkf PatternAction.respond_wont h = respond_x-Drained wont
    run_action-Drained gkf PatternAction.ignore_match h =
        (touched_drained L from _ f refl refl refl refl refl, t)
    run_action-Drained gkf PatternAction.mccp2_do h = absurd h
    run_action-Drained gkf PatternAction.mccp2_dont h = mccp2_dont-Drained
    run_action-Drained gkf PatternAction.mccp2_sb_start h = mccp2_sb_start-Drained
