-- ===== src/Proxy/Bounds.antt =====
-- The branch for a match of `muditm_proxy` (proxy.c): buffers, rules and the length of the input.
use mudit_m.Base.{
  ℕ, zero, suc, ◌-◌, ◌≤◌, ◌<◌, ◌≡◌, refl, sym, ◌∙◌, ◌≢◌, Bool, true, false, Option, none, some,
  List, arith, length-take, Bool-cases, inl, inr, if◌then◌else◌,
}
use mathlib.Core.Path.{subst}
use mudit_m.Libs.{Libs, DeflateLaws, MatchesInside, nomatch, found, partial, failed}
use mudit_m.Iobuf.{len_iobuf, peek_iobuf, contents}
use mudit_m.Iobuf.Bounds.{IsValid, tail-pop_iobuf}
use mudit_m.Run.{Bounded, Bounded-bind, Bounded-call, Bounded-weaken, Returns, Returns-weaken}
use mudit_m.Conf.{KeyFile}
use mudit_m.Endpoint.{Endpoint, Pattern, PatternAction}
use mudit_m.Endpoint.Io.{write_endpoint}
use mudit_m.Endpoint.Frame.{Frame, Kept-Answers, write_endpoint-Frame}
use mudit_m.Handlers.{pop_match}
use mudit_m.Handlers.Bounds.{
  IsInput, IsSound, SameRules, Sent, Acted, Sent-refl, left_alone, pop_match-IsSound,
}
use mudit_m.Handlers.Actions.{Owed, run_action-Acted}
use mudit_m.Proxy.{run_match, ship, handle, handle_by, forward_unless, on_match}

-- The endpoint has an expression, and PCRE2 keeps its promises about it.
pub record HasRules (L : Libs) (ep : Endpoint L) : Type 0 where
  pub code : L.Code
  pub is_set : ep.re ≡ some code
  pub inside : MatchesInside L code

-- What a stretch of the loop has made of both sides, with at most `left` bytes of input.
pub record Stage (L : Libs) (from to : Endpoint L) (left : ℕ) (from' to' : Endpoint L)
    : Type 0 where
  pub from_sound : IsSound L from'
  pub to_sound : IsSound L to'
  pub from_rules : SameRules L from from'
  pub to_rules : SameRules L to to'
  pub input_left : from'.iobuf_in.tail ≤ left

abbrev pub At : (L : Libs) → Endpoint L → Endpoint L → ℕ → Endpoint L × Endpoint L → Type 0
At L from to left (from', to') = Stage L from to left from' to'

pub SameRules-trans :
    (L : Libs) (a b c : Endpoint L) → SameRules L a b → SameRules L b c → SameRules L a c
SameRules-trans L a b c p q = record {
  same_re = q.same_re ∙ p.same_re;
  same_patterns = q.same_patterns ∙ p.same_patterns;
  answers = λ a. q.answers (p.answers a);
}

pub Stage-trans :
    (L : Libs) (a b a' b' a'' b'' : Endpoint L) (m n : ℕ)
    → Stage L a b m a' b'
    → Stage L a' b' n a'' b''
    → Stage L a b n a'' b''
Stage-trans L a b a' b' a'' b'' m n p q = record {
  from_sound = q.from_sound;
  to_sound = q.to_sound;
  from_rules = SameRules-trans L a a' a'' p.from_rules q.from_rules;
  to_rules = SameRules-trans L b b' b'' p.to_rules q.to_rules;
  input_left = q.input_left;
}

pub Stage-shorter :
    (L : Libs) (a b a' b' : Endpoint L) (m n : ℕ)
    → Stage L a b m a' b'
    → m ≤ n
    → Stage L a b n a' b'
Stage-shorter L a b a' b' m n p h = record {
  from_sound = p.from_sound;
  to_sound = p.to_sound;
  from_rules = p.from_rules;
  to_rules = p.to_rules;
  input_left = omega (arith, p.input_left);
}

unhandled :
    (L : Libs) (n : ℕ) (from to : Endpoint L)
    → IsSound L from
    → IsSound L to
    → Acted L n from to false from to
unhandled L n from to f t = left_alone L n from to from to (Sent-refl L from f) (Sent-refl L to t)

module _ (L : Libs) where
  -- The expression is matched against what the input buffer holds.
  pub run_match_eq :
      (ep : Endpoint L) (c : L.Code)
      → ep.re ≡ some c
      → run_match L ep
        ≡ (if ep.matching_enabled then L.pcre2_match c (contents ep.iobuf_in) else nomatch)
  unfolding run_match len_iobuf
  run_match_eq ep c e = simp (e, run_match)

  -- A match is one of the expression in the input.
  pub run_match_found :
      (ep : Endpoint L) (code start end : ℕ) (h : HasRules L ep)
      → run_match L ep ≡ found code start end
      → L.pcre2_match h.code (contents ep.iobuf_in) ≡ found code start end
  run_match_found ep code start end h e = elim (Bool-cases ep.matching_enabled) [
    | inl on ↦ rw (run_match_eq ep h.code h.is_set, on) at e
    | inr off ↦ let p = rw (run_match_eq ep h.code h.is_set, off) at e in cc p
  ]

  pub run_match_partial :
      (ep : Endpoint L) (h : HasRules L ep)
      → run_match L ep ≡ partial
      → L.pcre2_match h.code (contents ep.iobuf_in) ≡ partial
  run_match_partial ep h e = elim (Bool-cases ep.matching_enabled) [
    | inl on ↦ rw (run_match_eq ep h.code h.is_set, on) at e
    | inr off ↦ let p = rw (run_match_eq ep h.code h.is_set, off) at e in cc p
  ]

  pub run_match_inside :
      (ep : Endpoint L) (code start end : ℕ)
      → HasRules L ep
      → run_match L ep ≡ found code start end
      → (start < end) × (end ≤ ep.iobuf_in.tail)
  run_match_inside ep code start end h e = omega (
    arith,
    h.inside.match_inside (contents ep.iobuf_in) code start end
        (run_match_found ep code start end h e),
    length-take ep.iobuf_in.tail ep.iobuf_in.block,
  )

  pub run_match_sound :
      (ep : Endpoint L) (start end : ℕ) → HasRules L ep → run_match L ep ≢ failed start end
  run_match_sound ep start end h e = elim (Bool-cases ep.matching_enabled) [
    | inl on ↦
        h.inside.match_sound (contents ep.iobuf_in) start end
          (rw (run_match_eq ep h.code h.is_set, on) at e)
    | inr off ↦ let p = rw (run_match_eq ep h.code h.is_set, off) at e in cc p
  ]

module _ (L : Libs) (laws : DeflateLaws L) where
  pub write_endpoint-Sent :
      (ep : Endpoint L) (buf : List ℕ)
      → IsSound L ep
      → Returns (λ r. Sent L ep r.1) (write_endpoint L ep buf)
  write_endpoint-Sent ep buf s =
      Returns-weaken (λ r. Frame L ep r.1) _ _ (write_endpoint-Frame L laws ep buf)
        (λ r k. record {
          sound = record {
            in_valid = subst IsInput (sym k.0.same_in) s.in_valid;
            out_valid = subst IsValid (sym k.1) s.out_valid;
          };
          rules = record {
            same_re = k.0.same_re;
            same_patterns = k.0.same_patterns;
            answers = Kept-Answers L ep r.1 k.0;
          };
          input = k.0.same_in;
        })

  -- A write to the other side and a pop of the input.
  copied :
      (n : ℕ) (from to to' : Endpoint L)
      → IsSound L from
      → Sent L to to'
      → Stage L from to (from.iobuf_in.tail - n) (pop_match L n from) to'
  copied n from to to' f t = record {
    from_sound = pop_match-IsSound L n from f;
    to_sound = t.sound;
    from_rules = record { same_re = refl; same_patterns = refl; answers = λ a. a };
    to_rules = t.rules;
    input_left = omega (arith, tail-pop_iobuf from.iobuf_in n);
  }

  pub standing :
      (n : ℕ) (from to : Endpoint L)
      → IsSound L from
      → IsSound L to
      → from.iobuf_in.tail ≤ n
      → Stage L from to n from to
  standing n from to f t h = record {
    from_sound = f;
    to_sound = t;
    from_rules = record { same_re = refl; same_patterns = refl; answers = λ a. a };
    to_rules = record { same_re = refl; same_patterns = refl; answers = λ a. a };
    input_left = h;
  }

  ship-Stage :
      (start : ℕ) (from to : Endpoint L)
      → IsSound L from
      → IsSound L to
      → Bounded (At L from to (from.iobuf_in.tail - start)) (ship L start from to)
  unfolding ship
  ship-Stage zero from to f t = standing _ from to f t (omega arith)
  ship-Stage (suc n) from to f t =
      Bounded-call (λ r. Sent L to r.1) _ (write_endpoint L to (peek_iobuf from.iobuf_in (suc n))) _
        (write_endpoint-Sent to _ t) (λ r k. copied (suc n) from to r.1 f k)

  forward_unless-Stage :
      (n : ℕ) (from to from' to' : Endpoint L) (handled : Bool)
      → Acted L n from to handled from' to'
      → Bounded (At L from to (from.iobuf_in.tail - n)) (forward_unless L handled n from' to')
  unfolding forward_unless
  forward_unless-Stage n from to from' to' true k = record {
    from_sound = k.from_sound;
    to_sound = k.to_sound;
    from_rules = k.from_rules;
    to_rules = k.to_rules;
    input_left = omega (arith, k.consumed refl);
  }
  forward_unless-Stage n from to from' to' false k =
      Bounded-call (λ r. Sent L to' r.1) _ (write_endpoint L to' (peek_iobuf from'.iobuf_in n)) _
        (write_endpoint-Sent to' _ k.to_sound)
        (λ r q.
          let p = copied n from' to' r.1 k.from_sound q in
          record {
            from_sound = p.from_sound;
            to_sound = p.to_sound;
            from_rules = SameRules-trans L from from' _ k.from_rules p.from_rules;
            to_rules = SameRules-trans L to to' _ k.to_rules p.to_rules;
            input_left = omega (arith, p.input_left, k.no_growth);
          })

  handle-Acted :
      (gkf : KeyFile) (p : Option Pattern) (n : ℕ) (from to : Endpoint L)
      → IsSound L from
      → IsSound L to
      → Bounded (Owed L laws n from to) (handle L gkf p n from to)
  unfolding handle
  handle-Acted gkf none n from to f t = unhandled L n from to f t
  handle-Acted gkf (some p) n from to f t = by_action p.action
    where
      by_action :
          (a : Option PatternAction) → Bounded (Owed L laws n from to) (handle_by L gkf a n from to)
      by_action none = unhandled L n from to f t
      by_action (some action) = run_action-Acted L laws n from to f t gkf action

  -- On sides with valid buffers, the branch for a match returns or finds no space for a message,
  -- keeps the buffers valid, and leaves at most the input less what precedes the match and less
  -- the match, whether its action handles it or not.
  pub on_match-Stage :
      (gkf : KeyFile) (p : Option Pattern) (start end : ℕ) (from to : Endpoint L)
      → IsSound L from
      → IsSound L to
      → Bounded
          (At L from to (from.iobuf_in.tail - start - (end - start)))
          (on_match L gkf p start end from to)
  unfolding on_match
  on_match-Stage gkf p start end from to f t =
      Bounded-bind (At L from to (from.iobuf_in.tail - start)) _ (ship L start from to) _
        (ship-Stage start from to f t)
        (λ (from1, to1) a.
          Bounded-bind (Owed L laws (end - start) from1 to1) _
            (handle L gkf p (end - start) from1 to1) _
            (handle-Acted gkf p (end - start) from1 to1 a.from_sound a.to_sound)
            (λ (handled, from2, to2) b.
              Bounded-weaken (At L from1 to1 (from1.iobuf_in.tail - (end - start))) _
                (forward_unless L handled (end - start) from2 to2)
                (forward_unless-Stage (end - start) from1 to1 from2 to2 handled b)
                (λ (from3, to3) c.
                  Stage-shorter L from to from3 to3 _ _
                    (Stage-trans L from to from1 to1 from3 to3 _ _ a c)
                    (omega (arith, a.input_left)))))
