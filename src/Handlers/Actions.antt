-- ===== src/Handlers/Actions.antt =====
-- The actions of handlers.c and mccp.c one by one: buffers, rules and the length of the input.
use mudit_m.Base.{
  arith, ℕ, refl, Bool, true, false, Option, none, some, codes, Bool-cases, Option-cases, inl, inr,
  ◌==◌, if◌then◌else◌, [], ◌∷◌,
}
use mudit_m.Telnet.{iac, wont, do_cmd, dont}
use mudit_m.Libs.{Libs, DeflateLaws}
use mudit_m.Run.{Bounded, Bounded-bind, Bounded-call}
use mudit_m.Conf.{KeyFile}
use mudit_m.Endpoint.{Endpoint, PatternAction}
use mudit_m.Endpoint.Io.{flush_endpoint}
use mudit_m.Handlers.{send_out, pop_match, print_out, remove_match, redact_match, disable_matching}
use mudit_m.Handlers.Mnes.{
  mnes_request, mnes_client_will, mnes_client_wont, mnes_does, respond_x, respond_dont, respond_do,
  respond_wont, queue_reports, mnes_will,
}
use mudit_m.Handlers.Mccp.{
  ignore_match, mccp2_do, mccp2_dont, mccp2_sb_start, report_compression, start_output,
  begin_output, answer_do, mccp2_begin,
}
use mudit_m.Handlers.Patterns.{run_action}
use mudit_m.Handlers.Bounds.{
  IsSound, Sent, Acted, Sent-refl, Sent-trans, touched, left_alone, popped, popped_after,
  pop_match-IsSound, print_out-Sent, send_out-Sent, report_compression-Sent, flush-Sent,
  queue_reports-Sent, third_byte,
}

module _ (L : Libs) (laws : DeflateLaws L) (n : ℕ) (from to : Endpoint L) where
  -- What `run_action` owes to its caller.
  abbrev pub Owed : Bool × Endpoint L × Endpoint L → Type 0
  Owed (handled, from', to') = Acted L n from to handled from' to'

  module _ (f : IsSound L from) (t : IsSound L to) where
    abbrev popped_from : Sent L (pop_match L n from) (pop_match L n from)
    popped_from = Sent-refl L (pop_match L n from) (pop_match-IsSound L n from f)

    remove_match-Acted : Bounded Owed (remove_match L n from to)
    unfolding remove_match
    remove_match-Acted = popped L n true from to _ _ popped_from (Sent-refl L to t)

    redact_match-Acted : Bounded Owed (redact_match L n from to)
    unfolding redact_match
    redact_match-Acted =
        Bounded-call (λ r. Sent L to r.1) _ (flush_endpoint L (print_out L (codes "REDACTED") to)) _
          (print_out-Sent L laws to (codes "REDACTED") t)
          (λ r k. popped L n true from to _ _ popped_from k)

    mnes_client_will-Acted : Bounded Owed (mnes_client_will L n from to)
    unfolding mnes_client_will
    mnes_client_will-Acted =
        left_alone L n from to _ _ (touched L from _ f refl refl refl refl (λ a. a))
          (Sent-refl L to t)

    mnes_does-Acted : Bounded Owed (mnes_does L n from to)
    unfolding mnes_does
    mnes_does-Acted =
        left_alone L n from to _ _ (touched L from _ f refl refl refl refl (λ a. a))
          (Sent-refl L to t)

    ignore_match-Acted : Bounded Owed (ignore_match L n from to)
    unfolding ignore_match disable_matching
    ignore_match-Acted =
        left_alone L n from to _ _ (touched L from _ f refl refl refl refl (λ a. a))
          (Sent-refl L to t)

    mnes_client_wont-Acted : Bounded Owed (mnes_client_wont L n from to)
    unfolding mnes_client_wont
    mnes_client_wont-Acted =
        Bounded-bind (Sent L to) _ (send_out L mnes_will to) _ (send_out-Sent L laws to mnes_will t)
          (λ to' k.
            popped L n true from to _ _
              (touched L (pop_match L n from) _ (pop_match-IsSound L n from f) refl refl refl refl
                (λ a. a))
              k)

    mnes_request-Acted : (gkf : KeyFile) → Bounded Owed (mnes_request L gkf n from to)
    unfolding mnes_request
    mnes_request-Acted gkf =
        let queued = queue_reports-Sent L gkf from to f in
        Bounded-call (λ r. Sent L (queue_reports L gkf from to) r.1) _
          (flush_endpoint L (queue_reports L gkf from to)) _
          (flush-Sent L laws (queue_reports L gkf from to) _ queued.sound queued.sound.out_valid)
          (λ r k. answered r.1 (Sent-trans L from _ r.1 queued k))
      where
        answered :
            (from' : Endpoint L)
            → Sent L from from'
            → Owed (
                if to.mnes_state == wont
                then (true, pop_match L n from', to)
                else (false, from', to))
        answered from' k = elim (Bool-cases (to.mnes_state == wont)) [
          | inl silent ↦ rw silent (popped_after L n from to from' t k)
          | inr speaks ↦ rw speaks (left_alone L n from to from' to k (Sent-refl L to t))
        ]

    respond_x-Acted : (x : ℕ) → Bounded Owed (respond_x L n from to x)
    unfolding respond_x
    respond_x-Acted x =
        let i = f.in_valid in
        let (proto, read) =
          third_byte from.iobuf_in.block (omega (arith, i.room, i.valid.allocated)) in
        rw read (
          Bounded-call (λ r. Sent L from r.1) _
            (flush_endpoint L (print_out L (iac ∷ x ∷ proto ∷ []) from)) _
            (print_out-Sent L laws from (iac ∷ x ∷ proto ∷ []) f)
            (λ r k. popped_after L n from to r.1 t k))

    start_output-Acted : (z : L.Deflater) → Bounded Owed (start_output L z (pop_match L n from) to)
    start_output-Acted z =
        Bounded-bind (Sent L (pop_match L n from)) _ (send_out L mccp2_begin (pop_match L n from)) _
          (send_out-Sent L laws (pop_match L n from) mccp2_begin (pop_match-IsSound L n from f))
          (λ from' k.
            Bounded-bind (Sent L to) _ (report_compression L (codes "MCCP2") to) _
              (report_compression-Sent L laws (codes "MCCP2") to t)
              (λ to' q.
                popped L n true from to _ _
                  (Sent-trans L (pop_match L n from) from' _ k
                    (touched L from' _ k.sound refl refl refl refl (λ a. a)))
                  q))

    begin_output-Acted :
        (m : Option L.Deflater) → Bounded Owed (begin_output L m (pop_match L n from) to)
    begin_output-Acted none = popped L n false from to _ _ popped_from (Sent-refl L to t)
    begin_output-Acted (some z) = start_output-Acted z

    answer_do-Acted : (m : Option L.Deflater) → Bounded Owed (answer_do L m (pop_match L n from) to)
    answer_do-Acted none = begin_output-Acted L.deflate_init
    answer_do-Acted (some z) =
        popped L n true from to _ _
          (touched L (pop_match L n from) _ (pop_match-IsSound L n from f) refl refl refl refl
            (λ a. a))
          (Sent-refl L to t)

    mccp2_do-Acted : Bounded Owed (mccp2_do L n from to)
    unfolding mccp2_do
    mccp2_do-Acted = answer_do-Acted from.mccp_out

    mccp2_dont-Acted : Bounded Owed (mccp2_dont L n from to)
    unfolding mccp2_dont
    mccp2_dont-Acted =
        Bounded-bind (Sent L to) _ (report_compression L (codes "none") to) _
          (report_compression-Sent L laws (codes "none") to t)
          (λ to' k.
            popped L n true from to _ _
              (touched L (pop_match L n from) _ (pop_match-IsSound L n from f) refl refl refl refl
                (λ a. a))
              k)

    mccp2_sb_start-Acted : Bounded Owed (mccp2_sb_start L n from to)
    unfolding mccp2_sb_start
    mccp2_sb_start-Acted = elim (Option-cases L.inflate_init) [
      | inl unable ↦
          rw (unable, mccp2_sb_start) (popped L n false from to _ _ popped_from (Sent-refl L to t))
      | inr (z, able) ↦
          rw (able, mccp2_sb_start)
            (popped L n true from to _ _
              (touched L (pop_match L n from) _ (pop_match-IsSound L n from f) refl refl refl refl
                (λ a. a))
              (Sent-refl L to t))
    ]

    pub run_action-Acted :
        (gkf : KeyFile) (action : PatternAction) → Bounded Owed (run_action L gkf action n from to)
    unfolding run_action respond_dont respond_do respond_wont
    run_action-Acted gkf PatternAction.redact_match = redact_match-Acted
    run_action-Acted gkf PatternAction.remove_match = remove_match-Acted
    run_action-Acted gkf PatternAction.mnes_request = mnes_request-Acted gkf
    run_action-Acted gkf PatternAction.mnes_client_will = mnes_client_will-Acted
    run_action-Acted gkf PatternAction.mnes_client_wont = mnes_client_wont-Acted
    run_action-Acted gkf PatternAction.mnes_does = mnes_does-Acted
    run_action-Acted gkf PatternAction.respond_dont = respond_x-Acted dont
    run_action-Acted gkf PatternAction.respond_do = respond_x-Acted do_cmd
    run_action-Acted gkf PatternAction.respond_wont = respond_x-Acted wont
    run_action-Acted gkf PatternAction.ignore_match = ignore_match-Acted
    run_action-Acted gkf PatternAction.mccp2_do = mccp2_do-Acted
    run_action-Acted gkf PatternAction.mccp2_dont = mccp2_dont-Acted
    run_action-Acted gkf PatternAction.mccp2_sb_start = mccp2_sb_start-Acted
