-- ===== src/Handlers/Bounds.antt =====
-- The buffers behind the actions of handlers.c and mccp.c: shared notions and lemmas.
use mudit_m.Base.{
  ℕ, ◌-◌, ◌≤◌, ◌≡◌, refl, sym, ap, ◌∙◌, Bool, true, false, List, [], ◌∷◌, arith, codes, some,
  get_elem?, length, Option-cases, inl, inr,
}
use mathlib.Core.Path.{subst}
use mudit_m.Libs.{Libs, DeflateLaws}
use mudit_m.Iobuf.{Iobuf, pop_iobuf, popall_iobuf, append_iobuf, print_iobuf}
use mudit_m.Iobuf.Bounds.{
  IsValid, pop_iobuf-IsValid, print_iobuf-IsValid, append_iobuf-IsValid, tail-pop_iobuf,
  length-pop_iobuf, popall_iobuf-IsValid,
}
use mudit_m.Run.{Bounded, Bounded-call, Returns, Returns-weaken}
use mudit_m.Conf.{KeyFile}
use mudit_m.Endpoint.Reads.{Answers}
use mudit_m.Endpoint.{Endpoint}
use mudit_m.Endpoint.Io.{flush_endpoint, addr_endpoint}
use mudit_m.Endpoint.Frame.{Kept, Kept-Answers, flush_endpoint-Kept}
use mudit_m.Handlers.{mnes_pair, proxy_name, send_out, pop_match, print_out}
use mudit_m.Handlers.Mnes.{print_reports, queue_reports, compression_status}
use mudit_m.Handlers.Mccp.{report_compression}

-- An input buffer: its block has the three bytes that the answers to an option read at its start.
pub record IsInput (iob : Iobuf) : Type 0 where
  pub valid : IsValid iob
  pub room : 3 ≤ iob.length

pub pop-IsInput : (iob : Iobuf) (n : ℕ) → IsInput iob → IsInput (pop_iobuf iob n)
pop-IsInput iob n i = record {
  valid = pop_iobuf-IsValid iob n i.valid;
  room = omega (arith, i.room, length-pop_iobuf iob n);
}

pub popall-IsInput : (iob : Iobuf) → IsInput iob → IsInput (popall_iobuf iob)
unfolding popall_iobuf
popall-IsInput iob i = record { valid = popall_iobuf-IsValid iob i.valid; room = i.room }

pub third_byte : (block : List ℕ) → 3 ≤ length block → (b : ℕ) × (get_elem? block 2 ≡ some b)
third_byte [] h = absurd (omega arith)
third_byte (a ∷ []) h = absurd (omega arith)
third_byte (a ∷ b ∷ []) h = absurd (omega arith)
third_byte (a ∷ b ∷ c ∷ block) h = (c, refl)

-- Both buffers of an endpoint are valid, and its input has room.
pub record IsSound (L : Libs) (ep : Endpoint L) : Type 0 where
  pub in_valid : IsInput ep.iobuf_in
  pub out_valid : IsValid ep.iobuf_out

-- The compiled expression and the list that it was made from.
pub record SameRules (L : Libs) (ep ep' : Endpoint L) : Type 0 where
  pub same_re : ep'.re ≡ ep.re
  pub same_patterns : ep'.patterns ≡ ep.patterns
  pub answers : Answers L ep → Answers L ep'

-- What an action has done.
pub record Acted (L : Libs) (n : ℕ) (from to : Endpoint L) (handled : Bool) (from' to' : Endpoint L)
    : Type 0 where
  pub from_sound : IsSound L from'
  pub to_sound : IsSound L to'
  pub from_rules : SameRules L from from'
  pub to_rules : SameRules L to to'
  pub no_growth : from'.iobuf_in.tail ≤ from.iobuf_in.tail
  pub consumed : handled ≡ true → from'.iobuf_in.tail ≡ from.iobuf_in.tail - n

-- What an output to an endpoint leaves of it.
pub record Sent (L : Libs) (ep ep' : Endpoint L) : Type 0 where
  pub sound : IsSound L ep'
  pub rules : SameRules L ep ep'
  pub input : ep'.iobuf_in ≡ ep.iobuf_in

module _ (L : Libs) (laws : DeflateLaws L) where
  -- A flush of what was put in the output buffer, however it was put there.
  pub flush-Sent :
      (ep : Endpoint L) (out : Iobuf)
      → IsSound L ep
      → IsValid out
      → Returns (λ r. Sent L ep r.1) (flush_endpoint L (record ep { iobuf_out = out }))
  flush-Sent ep out s v =
      Returns-weaken (λ r. Kept L (record ep { iobuf_out = out }) r.1 × IsValid r.1.iobuf_out) _ _
        (flush_endpoint-Kept L laws (record ep { iobuf_out = out }) v)
        (λ r k. record {
          sound = record { in_valid = subst IsInput (sym k.0.same_in) s.in_valid; out_valid = k.1 };
          rules = record {
            same_re = k.0.same_re;
            same_patterns = k.0.same_patterns;
            answers = Kept-Answers L (record ep { iobuf_out = out }) r.1 k.0;
          };
          input = k.0.same_in;
        })

  pub print_out-Sent :
      (ep : Endpoint L) (text : List ℕ)
      → IsSound L ep
      → Returns (λ r. Sent L ep r.1) (flush_endpoint L (print_out L text ep))
  print_out-Sent ep text s =
      flush-Sent ep (print_iobuf ep.iobuf_out text) s
        (print_iobuf-IsValid ep.iobuf_out text s.out_valid)

  pub send_out-Sent :
      (ep : Endpoint L) (message : List ℕ)
      → IsSound L ep
      → Bounded (Sent L ep) (send_out L message ep)
  send_out-Sent ep message s = elim (Option-cases (append_iobuf ep.iobuf_out message)) [
    | inl full ↦ rw full tt
    | inr (out, fits) ↦ rw fits (
        Bounded-call (λ r. Sent L ep r.1) _ (flush_endpoint L (record ep { iobuf_out = out })) _
          (flush-Sent ep out s (append_iobuf-IsValid ep.iobuf_out message s.out_valid fits))
          (λ r k. k))
  ]

  pub report_compression-Sent :
      (status : List ℕ) (to : Endpoint L)
      → IsSound L to
      → Bounded (Sent L to) (report_compression L status to)
  report_compression-Sent status to s =
      let pair = mnes_pair (codes "COMPRESSION") status in
      Bounded-call (λ r. Sent L to r.1) _ (flush_endpoint L (print_out L pair to)) _
        (print_out-Sent to pair s) (λ r k. k)

module _ (L : Libs) (n : ℕ) where
  -- The ways in which an action leaves its own side: as it was, or with the match popped.
  pub left_alone :
      (from to from' to' : Endpoint L)
      → Sent L from from'
      → Sent L to to'
      → Acted L n from to false from' to'
  left_alone from to from' to' f t = record {
    from_sound = f.sound;
    to_sound = t.sound;
    from_rules = f.rules;
    to_rules = t.rules;
    no_growth = omega (arith, ap (λ (b : Iobuf). b.tail) f.input);
    consumed = λ e. cc;
  }

  pub popped :
      (handled : Bool) (from to from' to' : Endpoint L)
      → Sent L (pop_match L n from) from'
      → Sent L to to'
      → Acted L n from to handled from' to'
  popped handled from to from' to' f t = record {
    from_sound = f.sound;
    to_sound = t.sound;
    from_rules = record {
      same_re = f.rules.same_re;
      same_patterns = f.rules.same_patterns;
      answers = f.rules.answers;
    };
    to_rules = t.rules;
    no_growth = omega (arith, tail);
    consumed = λ e. tail;
  }
    where
      tail : from'.iobuf_in.tail ≡ from.iobuf_in.tail - n
      tail = ap (λ (b : Iobuf). b.tail) f.input ∙ tail-pop_iobuf from.iobuf_in n

  -- The match is popped behind an answer to its sender.
  pub popped_after :
      (from to from' : Endpoint L)
      → IsSound L to
      → Sent L from from'
      → Acted L n from to true (pop_match L n from') to
  popped_after from to from' t f = record {
    from_sound = record {
      in_valid = pop-IsInput from'.iobuf_in n f.sound.in_valid;
      out_valid = f.sound.out_valid;
    };
    to_sound = t;
    from_rules = record {
      same_re = f.rules.same_re;
      same_patterns = f.rules.same_patterns;
      answers = f.rules.answers;
    };
    to_rules = record { same_re = refl; same_patterns = refl; answers = λ a. a };
    no_growth = omega (arith, tail);
    consumed = λ e. tail;
  }
    where
      tail : (pop_iobuf from'.iobuf_in n).tail ≡ from.iobuf_in.tail - n
      tail = tail-pop_iobuf from'.iobuf_in n ∙ ap (λ (b : Iobuf). b.tail - n) f.input

  pub pop_match-IsSound : (from : Endpoint L) → IsSound L from → IsSound L (pop_match L n from)
  pop_match-IsSound from s = record {
    in_valid = pop-IsInput from.iobuf_in n s.in_valid;
    out_valid = s.out_valid;
  }

pub Sent-refl : (L : Libs) (ep : Endpoint L) → IsSound L ep → Sent L ep ep
Sent-refl L ep s = record {
  sound = s;
  rules = record { same_re = refl; same_patterns = refl; answers = λ a. a };
  input = refl;
}

pub Sent-trans : (L : Libs) (a b c : Endpoint L) → Sent L a b → Sent L b c → Sent L a c
Sent-trans L a b c p q = record {
  sound = q.sound;
  rules = record {
    same_re = q.rules.same_re ∙ p.rules.same_re;
    same_patterns = q.rules.same_patterns ∙ p.rules.same_patterns;
    answers = λ a. q.rules.answers (p.rules.answers a);
  };
  input = q.input ∙ p.input;
}

-- A change of other fields.
pub touched :
    (L : Libs) (ep ep' : Endpoint L)
    → IsSound L ep
    → ep'.iobuf_in ≡ ep.iobuf_in
    → ep'.iobuf_out ≡ ep.iobuf_out
    → ep'.re ≡ ep.re
    → ep'.patterns ≡ ep.patterns
    → (Answers L ep → Answers L ep')
    → Sent L ep ep'
touched L ep ep' s i o r p q = record {
  sound = record {
    in_valid = subst IsInput (sym i) s.in_valid;
    out_valid = subst IsValid (sym o) s.out_valid;
  };
  rules = record { same_re = r; same_patterns = p; answers = q };
  input = i;
}

printed :
    (L : Libs) (text : List ℕ) (ep : Endpoint L) → IsSound L ep → Sent L ep (print_out L text ep)
printed L text ep s = record {
  sound = record {
    in_valid = s.in_valid;
    out_valid = print_iobuf-IsValid ep.iobuf_out text s.out_valid;
  };
  rules = record { same_re = refl; same_patterns = refl; answers = λ a. a };
  input = refl;
}

print_reports-Sent :
    (L : Libs) (vars : List (List ℕ)) (addrtxt : List ℕ) (ep : Endpoint L)
    → IsSound L ep
    → Sent L ep (print_reports L vars addrtxt ep)
print_reports-Sent L [] addrtxt ep s = Sent-refl L ep s
print_reports-Sent L (var ∷ vars) addrtxt ep s =
    let text = mnes_pair var addrtxt in
    let first = printed L text ep s in
    Sent-trans L ep (print_out L text ep) _ first
      (print_reports-Sent L vars addrtxt (print_out L text ep) first.sound)

-- All that `mnes_request` puts in the output buffer keeps it valid, whether it fits or not.
pub queue_reports-Sent :
    (L : Libs) (gkf : KeyFile) (from to : Endpoint L)
    → IsSound L from
    → Sent L from (queue_reports L gkf from to)
queue_reports-Sent L gkf from to s =
    let name = mnes_pair (codes "PROXY_NAME") proxy_name in
    let status = mnes_pair (codes "COMPRESSION") (compression_status to.mccp_nego) in
    let a = printed L name from s in
    let b = printed L status (print_out L name from) a.sound in
    let c = Sent-trans L from (print_out L name from) _ a b in
    elim (Option-cases (gkf.get_string_list "muditm" "newenv_ipaddress")) [
      | inl unset ↦ rw (unset, queue_reports) c
      | inr (vars, set) ↦
          rw (set, queue_reports)
            (Sent-trans L from (print_out L status (print_out L name from)) _ c
              (print_reports-Sent L vars (addr_endpoint to.wire.peer) _ c.sound))
    ]
