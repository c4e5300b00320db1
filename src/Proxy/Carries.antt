-- ===== src/Proxy/Carries.antt =====
-- The matching loop of `muditm_proxy` (proxy.c) over actions that only take note of their match: the
-- whole loop.
use mudit_m.Base.{
  ℕ, zero, suc, ◌-◌, ◌≤◌, ◌<◌, ◌≡◌, ◌≢◌, refl, sym, ap, ◌∙◌, Bool, false, Option, some, List, arith,
  length, Bool-cases, inl, inr, ltb, take_all, drop_all, All, All-drop,
}
use mathlib.Core.Path.{subst}
use mathlib.Core.List.{append-nil}
use mudit_m.Libs.{Libs, found, partial}
use mudit_m.Iobuf.{Iobuf, popall_iobuf, len_iobuf, contents}
use mudit_m.Iobuf.Bounds.{IsValid, popall_iobuf-IsValid}
use mudit_m.Iobuf.Contents.{contents-popall_iobuf}
use mudit_m.Run.{Returns, Returns-bind, Returns-weaken}
use mudit_m.Conf.{KeyFile}
use mudit_m.Endpoint.{Endpoint, Pattern}
use mudit_m.Endpoint.Compressed.{sent_all}
use mudit_m.Proxy.{run_match, ship, handle, forward_unless, on_match, match_loop, pattern_at}
use mudit_m.Proxy.Bounds.{
  HasRules, run_match_inside, run_match_found, run_match_partial, run_match_sound,
}
use mudit_m.Proxy.Ends.{MatchResult-cases}
use mudit_m.Proxy.Transparent.{TakesNote, IsClear, Carried, Carried-trans}
use mudit_m.Proxy.Transparent.Match.{
  write_endpoint_clear, SameBut-refl, ship-Shortened, forward-Shortened, handle-Noted, standing,
  Shortened, Noted,
}

-- No action is called for a match in bytes with a property, but those that take note of it.
abbrev pub Harmless : (L : Libs) → (ℕ → Type 0) → L.Code → List Pattern → Type 0
Harmless L P re patterns =
    (subject : List ℕ) (code start end : ℕ)
    → All P subject
    → L.pcre2_match re subject ≡ found code start end
    → (q : Pattern) → pattern_at patterns code ≡ some q
    → TakesNote q.action

-- Bytes with a property are never the start of a match that their end cuts off.
abbrev pub Complete : (L : Libs) → (ℕ → Type 0) → L.Code → Type 0
Complete L P re = (subject : List ℕ) → All P subject → L.pcre2_match re subject ≢ partial

-- What the loop has carried, and if no match is cut off then nothing is left.
abbrev pub Passed :
    (L : Libs) → (ℕ → Type 0) → L.Code → Endpoint L → Endpoint L → Endpoint L × Endpoint L → Type 0
Passed L P re from to (from', to') =
    Carried L from to from' to' × (Complete L P re → from'.iobuf_in.tail ≡ 0)

module _ (L : Libs) (gkf : KeyFile) where
  -- What the actions have left alone.
  noted :
      (start : ℕ) (from to from1 to1 from2 : Endpoint L)
      → Shortened L start from to (from1, to1)
      → {handled : Bool} {to2 : Endpoint L} → Noted L from1 to1 (handled, from2, to2)
      → Carried L from to from2 to1 × (from2.iobuf_in.tail ≡ from.iobuf_in.tail - start)
  noted start from to from1 to1 from2 a b = (
    Carried-trans L from to from1 to1 from2 to1 a.0
        (standing L from1 to1 from2 a.0.clear a.0.valid b.2),
    ap (λ (x : Iobuf). x.tail) b.2.same_in ∙ a.1,
  )

  on_match-Shortened :
      (p : Option Pattern) (start end : ℕ) (from to : Endpoint L)
      → IsClear L to
      → IsValid from.iobuf_in
      → start < end
      → end ≤ from.iobuf_in.tail
      → ((q : Pattern) → p ≡ some q → TakesNote q.action)
      → Returns (Shortened L end from to) (on_match L gkf p start end from to)
  unfolding on_match
  on_match-Shortened p start end from to c v lt le h =
      Returns-bind (Shortened L start from to) _ (ship L start from to) _
        (ship-Shortened L start from to c v (omega arith))
        (λ (from1, to1) a.
          Returns-bind (Noted L from1 to1) _ (handle L gkf p (end - start) from1 to1) _
            (handle-Noted L gkf p (end - start) from1 to1 h)
            (λ (handled, from2, to2) b.
              let m = noted start from to from1 to1 from2 a b in
              rw (b.0, b.1)
                (Returns-weaken (Shortened L (end - start) from2 to1) _
                  (forward_unless L false (end - start) from2 to1)
                  (forward-Shortened L (end - start) from2 to1 m.0.clear m.0.valid
                    (omega (arith, m.1)))
                  (λ (from3, to3) d. (
                    Carried-trans L from to from2 to1 from3 to3 m.0 d.0,
                    omega (arith, d.1, m.1),
                  )))))

  -- All that waits in the input goes to the other side at once.
  all_sent :
      (from to : Endpoint L)
      → IsClear L to
      → IsValid from.iobuf_in
      → Carried L from to
          (record from { iobuf_in = popall_iobuf from.iobuf_in })
          (sent_all L (contents from.iobuf_in) to)
  all_sent from to c v = record {
    flight =
        rw
          (
            contents-popall_iobuf from.iobuf_in,
            take_all (length (contents from.iobuf_in)) (contents from.iobuf_in) (omega arith),
          )
          (append-nil _);
    clear = record { plain = c.plain; open_wire = refl };
    valid = popall_iobuf-IsValid from.iobuf_in v;
    same_re = refl;
    same_patterns = refl;
    passed = length (contents from.iobuf_in);
    rest =
        contents-popall_iobuf from.iobuf_in
        ∙ sym (drop_all (length (contents from.iobuf_in)) (contents from.iobuf_in) (omega arith));
    elsewhere = record {
      from_wire = refl;
      from_ssl = refl;
      from_mccp_in = refl;
      from_mccp_out = refl;
      to_in = refl;
      to_incoming = refl;
      to_ssl = refl;
      to_mccp_in = refl;
      to_re = refl;
      to_patterns = refl;
    };
  }

  -- The matching loop on an input of bytes for which no action is called but those that take note
  -- of their match.
  pub match_loop-Passed :
      (P : ℕ → Type 0) (fuel : ℕ) (from to : Endpoint L) (r : HasRules L from)
      → Harmless L P r.code from.patterns
      → All P (contents from.iobuf_in)
      → IsClear L to
      → IsValid from.iobuf_in
      → from.iobuf_in.tail < fuel
      → Returns (Passed L P r.code from to) (match_loop L gkf fuel from to)
  unfolding match_loop len_iobuf popall_iobuf
  match_loop-Passed P zero from to r n all c v lt = absurd (omega arith)
  match_loop-Passed P (suc fuel) from to r n all c v lt =
      elim (MatchResult-cases (run_match L from)) [
        | inl e ↦
            rw (e, match_loop, write_endpoint_clear L to (contents from.iobuf_in) c)
              (all_sent from to c v, λ whole. refl)
        | inr (inl e) ↦
            rw (e, match_loop)
              (
                standing L from to from c v (SameBut-refl L from),
                λ whole. absurd (whole _ all (run_match_partial L from r e)),
              )
        | inr (inr (inl (code, start, end, e))) ↦
            let inside = run_match_inside L from code start end r e in
            let p = pattern_at from.patterns code in
            rw (e, match_loop)
              (Returns-bind (Shortened L end from to) _ (on_match L gkf p start end from to) _
                (on_match-Shortened p start end from to c v inside.0 inside.1
                  (λ q eq. n _ code start end all (run_match_found L from code start end r e) q eq))
                (λ (from', to') a. elim (Bool-cases (ltb 0 (from'.iobuf_in.tail))) [
                  | inl more ↦ rw more (
                      Returns-weaken (Passed L P r.code from' to') _
                        (match_loop L gkf fuel from' to')
                        (match_loop-Passed P fuel from' to'
                          (record {
                            code = r.code;
                            is_set = a.0.same_re ∙ r.is_set;
                            inside = r.inside;
                          })
                          (subst (Harmless L P r.code) (sym a.0.same_patterns) n)
                          (subst (All P) (sym a.0.rest) (All-drop P a.0.passed _ all)) a.0.clear
                          a.0.valid (omega (arith, inside, a.1)))
                        (λ (from'', to'') b.
                          (Carried-trans L from to from' to' from'' to'' a.0 b.0, b.1)))
                  | inr done ↦ rw done (a.0, λ whole. ground (arith, done))
                ]))
        | inr (inr (inr (start, end, e))) ↦ absurd (run_match_sound L from start end r e)
      ]
