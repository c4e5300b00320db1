-- ===== src/Proxy/Service.antt =====
-- The service of a readable side (proxy.c): from the read to the end of the matching loop.
use mudit_m.Base.{ℕ, zero, suc, ◌≤◌, refl, sym, ap, List, length, arith}
use mathlib.Core.Path.{subst}
use mudit_m.Libs.{Libs, DeflateLaws, InflateLaws}
use mudit_m.Posix.{Ret, eagain, other_errno}
use mudit_m.Iobuf.{avail_iobuf, len_iobuf}
use mudit_m.Iobuf.Bounds.{IsValid}
use mudit_m.Run.{Bounded, Bounded-bind, Bounded-call, Bounded-weaken}
use mudit_m.Conf.{KeyFile}
use mudit_m.Endpoint.Reads.{Answers}
use mudit_m.Endpoint.{Endpoint}
use mudit_m.Endpoint.Io.{read_endpoint}
use mudit_m.Endpoint.Inflates.{Yields, Steady, read_endpoint-Yields}
use mudit_m.Handlers.Bounds.{IsSound, IsInput, SameRules}
use mudit_m.Proxy.Received.{received, received-IsInput, receive_lem}
use mudit_m.Proxy.{Served, goes_on, ends, after_read, serve, match_loop}
use mudit_m.Proxy.Bounds.{HasRules, At, SameRules-trans}
use mudit_m.Proxy.Ends.{HasRules-same, match_loop-Stage}

module _ (L : Libs) (deflates : DeflateLaws L) (inflates : InflateLaws L) (gkf : KeyFile) where
  -- Both sides as they stand after a service.
  abbrev pub SoundSides : Endpoint L → Endpoint L → Endpoint L → Endpoint L → Type 0
  SoundSides from to from' to' =
      IsSound L from' × IsSound L to' × SameRules L from from' × SameRules L to to'

  abbrev pub SoundServed : Endpoint L → Endpoint L → Served L → Type 0
  SoundServed from to (goes_on from' to') = SoundSides from to from' to'
  SoundServed from to (ends ret from' to') = SoundSides from to from' to'

  read_rules : (from from' : Endpoint L) → Steady L from from' → SameRules L from from'
  read_rules from from' s = record {
    same_re = s.same_re;
    same_patterns = s.same_patterns;
    answers = s.answers;
  }

  read-IsSound : (from from' : Endpoint L) → IsSound L from → Steady L from from' → IsSound L from'
  read-IsSound from from' f s = record {
    in_valid = subst IsInput (sym s.same_in) f.in_valid;
    out_valid = subst IsValid (sym s.same_out) f.out_valid;
  }

  widen :
      (from from' to : Endpoint L)
      → SameRules L from from'
      → (served : Served L) → SoundServed from' to served
      → SoundServed from to served
  widen from from' to r (goes_on a b) k = (k.0, k.1, SameRules-trans L from from' a r k.2, k.3)
  widen from from' to r (ends ret a b) k = (k.0, k.1, SameRules-trans L from from' a r k.2, k.3)

  unchanged : (ep : Endpoint L) → SameRules L ep ep
  unchanged ep = record { same_re = refl; same_patterns = refl; answers = λ a. a }

  after_read-SoundServed :
      (ret : Ret) (bytes : List ℕ) (from to : Endpoint L)
      → IsSound L from
      → IsSound L to
      → HasRules L from
      → length bytes ≤ avail_iobuf from.iobuf_in
      → Bounded (SoundServed from to) (after_read L gkf ret bytes from to)
  unfolding after_read len_iobuf
  after_read-SoundServed (Ret.failed eagain) bytes from to f t h fits =
      (f, t, unchanged from, unchanged to)
  after_read-SoundServed (Ret.failed other_errno) bytes from to f t h fits =
      (f, t, unchanged from, unchanged to)
  after_read-SoundServed (Ret.count zero) bytes from to f t h fits =
      (f, t, unchanged from, unchanged to)
  after_read-SoundServed (Ret.count (suc n)) bytes from to f t h fits =
      let start = record from { iobuf_in = received from.iobuf_in bytes (suc n) } in
      rw (receive_lem from.iobuf_in bytes (suc n) f.in_valid.valid fits) (
        Bounded-bind (At L start to start.iobuf_in.tail) _
          (match_loop L gkf (suc start.iobuf_in.tail) start to) _
          (match_loop-Stage L deflates gkf (suc start.iobuf_in.tail) start to
            (record {
              in_valid = received-IsInput from.iobuf_in bytes (suc n) f.in_valid;
              out_valid = f.out_valid;
            })
            t (record { code = h.code; is_set = h.is_set; inside = h.inside }) (omega arith))
          (λ (from', to') a. (
            a.from_sound,
            a.to_sound,
            record {
              same_re = a.from_rules.same_re;
              same_patterns = a.from_rules.same_patterns;
              answers = a.from_rules.answers;
            },
            a.to_rules,
          )))

  -- The service of one readable side with valid buffers, a plain socket or TLS with a peer that
  -- hangs up in the end, and an expression that matches inside its subject ends, or a message has
  -- no space; both sides keep valid buffers, their expressions and their patterns.
  pub serve-SoundServed :
      (from to : Endpoint L)
      → IsSound L from
      → IsSound L to
      → HasRules L from
      → Answers L from
      → Bounded (SoundServed from to) (serve L gkf from to)
  unfolding serve
  serve-SoundServed from to f t h plain =
      Bounded-call (Yields L (avail_iobuf from.iobuf_in) from) _
        (read_endpoint L from (avail_iobuf from.iobuf_in)) _
        (read_endpoint-Yields L inflates (avail_iobuf from.iobuf_in) from plain)
        (λ (ret, bytes, from') y.
          Bounded-weaken (SoundServed from' to) _ (after_read L gkf ret bytes from' to)
            (after_read-SoundServed ret bytes from' to (read-IsSound from from' f y.0) t
              (HasRules-same L from from' h (read_rules from from' y.0))
              (omega (arith, ap avail_iobuf y.0.same_in, y.1)))
            (λ served k. widen from from' to (read_rules from from' y.0) served k))
