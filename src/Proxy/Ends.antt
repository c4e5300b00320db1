-- ===== src/Proxy/Ends.antt =====
-- The matching loop of `muditm_proxy` (proxy.c) on fuel.
use mudit_m.Base.{ℕ, zero, suc, ◌-◌, ◌<◌, ◌≡◌, refl, ◌∙◌, ◌⊎◌, arith, Bool-cases, inl, inr, ltb}
use mudit_m.Libs.{Libs, DeflateLaws, MatchResult, nomatch, partial, found, failed}
use mudit_m.Iobuf.{len_iobuf}
use mudit_m.Iobuf.Bounds.{tail-popall_iobuf}
use mudit_m.Run.{Bounded, Bounded-bind, Bounded-call, Bounded-weaken}
use mudit_m.Conf.{KeyFile}
use mudit_m.Endpoint.{Endpoint}
use mudit_m.Endpoint.Io.{write_endpoint}
use mudit_m.Handlers.Bounds.{IsSound, SameRules, Sent, popall-IsInput}
use mudit_m.Proxy.{run_match, on_match, match_loop, pattern_at}
use mudit_m.Proxy.Bounds.{
  HasRules, At, Stage-trans, Stage-shorter, run_match_inside, run_match_sound, write_endpoint-Sent,
  standing, on_match-Stage,
}

pub HasRules-same :
    (L : Libs) (ep ep' : Endpoint L) → HasRules L ep → SameRules L ep ep' → HasRules L ep'
HasRules-same L ep ep' h s = record {
  code = h.code;
  is_set = s.same_re ∙ h.is_set;
  inside = h.inside;
}

-- A result of the matcher, with the equation.
pub MatchResult-cases :
    (r : MatchResult)
    → (r ≡ nomatch)
      ⊎ (r ≡ partial)
      ⊎ ((code : ℕ) × (start : ℕ) × (end : ℕ) × (r ≡ found code start end))
      ⊎ ((start : ℕ) × (end : ℕ) × (r ≡ failed start end))
MatchResult-cases nomatch = inl refl
MatchResult-cases partial = inr (inl refl)
MatchResult-cases (found c s e) = inr (inr (inl (c, s, e, refl)))
MatchResult-cases (failed s e) = inr (inr (inr (s, e, refl)))

module _ (L : Libs) (laws : DeflateLaws L) (gkf : KeyFile) where
  pub match_loop-Stage :
      (fuel : ℕ) (from to : Endpoint L)
      → IsSound L from
      → IsSound L to
      → HasRules L from
      → from.iobuf_in.tail < fuel
      → Bounded (At L from to from.iobuf_in.tail) (match_loop L gkf fuel from to)
  unfolding match_loop len_iobuf
  match_loop-Stage zero from to f t h lt = absurd (omega arith)
  match_loop-Stage (suc fuel) from to f t h lt = elim (MatchResult-cases (run_match L from)) [
    | inl e ↦
        rw (e, match_loop)
          (Bounded-call (λ r. Sent L to r.1) _ (write_endpoint L to _) _
            (write_endpoint-Sent L laws to _ t)
            (λ r k. record {
              from_sound = record {
                in_valid = popall-IsInput from.iobuf_in f.in_valid;
                out_valid = f.out_valid;
              };
              to_sound = k.sound;
              from_rules = record { same_re = refl; same_patterns = refl; answers = λ a. a };
              to_rules = k.rules;
              input_left = omega (arith, tail-popall_iobuf from.iobuf_in);
            }))
    | inr (inl e) ↦ rw (e, match_loop) (standing L laws _ from to f t (omega arith))
    | inr (inr (inl (code, start, end, e))) ↦
        let inside = run_match_inside L from code start end h e in
        let p = pattern_at from.patterns code in
        rw (e, match_loop)
          (Bounded-bind (At L from to (from.iobuf_in.tail - start - (end - start))) _
            (on_match L gkf p start end from to) _
            (on_match-Stage L laws gkf p start end from to f t)
            (λ (from', to') a. elim (Bool-cases (ltb 0 (from'.iobuf_in.tail))) [
              | inl more ↦ rw more (
                  Bounded-weaken (At L from' to' from'.iobuf_in.tail) _
                    (match_loop L gkf fuel from' to')
                    (match_loop-Stage fuel from' to' a.from_sound a.to_sound
                      (HasRules-same L from from' h a.from_rules)
                      (omega (arith, inside, a.input_left)))
                    (λ (from'', to'') b.
                      Stage-shorter L from to from'' to'' _ _
                        (Stage-trans L from to from' to' from'' to'' _ _ a b)
                        (omega (arith, a.input_left))))
              | inr done ↦ rw done (Stage-shorter L from to from' to' _ _ a (omega arith))
            ]))
    | inr (inr (inr (start, end, e))) ↦ absurd (run_match_sound L from start end h e)
  ]
