-- ===== src/Proxy/Piped.antt =====
-- The service of a side of `muditm_proxy` (proxy.c) as a pipe: from the peer's bytes to the other peer.
use mudit_m.Base.{
  ℕ, ◌+◌, ◌≤◌, ◌≡◌, sym, ap, ◌∙◌, none, List, ◌++◌, length, take, store, take-store, arith, All,
  All-append, All-drop, All-front, All-back, drop,
}
use mathlib.Core.List.{append_assoc}
use mathlib.Core.Path.{subst}
use mudit_m.Libs.{Libs}
use mudit_m.Posix.{Wire}
use mudit_m.Iobuf.{Iobuf, push_iobuf, contents, avail_iobuf}
use mudit_m.Iobuf.Bounds.{IsValid, avail_iobuf_lem}
use mudit_m.Endpoint.{Endpoint}
use mudit_m.Endpoint.Reads.{Answers, Settles}
use mudit_m.Endpoint.Arrivals.{to_come}
use mudit_m.Proxy.Received.{received}
use mudit_m.Proxy.Bounds.{HasRules}
use mudit_m.Proxy.Transparent.{IsClear, Carried}
use mudit_m.Proxy.Carries.{Harmless, Complete}

tail-received :
    (iob : Iobuf) (bytes : List ℕ) (n : ℕ)
    → IsValid iob
    → n ≤ avail_iobuf iob
    → (received iob bytes n).tail ≡ iob.tail + n
unfolding received push_iobuf
tail-received iob bytes n v fits = ground (arith, avail_iobuf_lem iob v)

-- The bytes that are read are put behind the contents.
pub contents-received :
    (iob : Iobuf) (bytes : List ℕ) (n : ℕ)
    → IsValid iob
    → n ≡ length bytes
    → n ≤ avail_iobuf iob
    → contents (received iob bytes n) ≡ contents iob ++ bytes
unfolding received push_iobuf
contents-received iob bytes n v e fits =
    ap (λ k. take k (store iob.block iob.tail bytes)) (tail-received iob bytes n v fits)
    ∙ take-store iob.block iob.tail bytes (iob.tail + n)
        (omega (arith, avail_iobuf_lem iob v, v.allocated, v.within)) (omega arith)

module _ (L : Libs) where
  -- All that is on its way from one peer to the other: what was sent, what waits in the input, and
  -- what is still to come.
  abbrev pub stream : Endpoint L → Endpoint L → List ℕ
  stream from to = to.wire.sent ++ (contents from.iobuf_in ++ to_come from.wire.incoming)

  -- What is not there yet.
  abbrev pub unread : Endpoint L → List ℕ
  unread from = contents from.iobuf_in ++ to_come from.wire.incoming

-- A side as a source of bytes with a property.
pub record IsSource (L : Libs) (P : ℕ → Type 0) (from : Endpoint L) : Type 0 where
  pub rules : HasRules L from
  pub harmless : Harmless L P rules.code from.patterns
  pub complete : Complete L P rules.code
  pub all : All P (unread L from)
  pub valid : IsValid from.iobuf_in
  pub plain_in : from.mccp_in ≡ none
  pub live : Answers L from

Answers-same :
    (L : Libs) (ep ep' : Endpoint L)
    → ep'.ssl ≡ ep.ssl
    → ep'.wire.incoming ≡ ep.wire.incoming
    → Answers L ep
    → Answers L ep'
Answers-same L ep ep' s i a =
    subst (λ b. Settles b ep'.wire.incoming) (sym s) (subst (Settles ep.ssl) (sym i) a)

-- What a stretch of the service makes of two sides: nothing is lost in either direction, and what was
-- needed of the sides is still so.
pub record Piped (L : Libs) (P : ℕ → Type 0) (from to from' to' : Endpoint L) : Type 0 where
  pub same_stream : stream L from' to' ≡ stream L from to
  pub source : IsSource L P from'
  pub clear : IsClear L to'
  pub back_stream : stream L to' from' ≡ stream L to from
  pub back_source : IsSource L P to → IsSource L P to'
  pub back_clear : IsClear L from → IsClear L from'

pub Piped-trans :
    (L : Libs) (P : ℕ → Type 0) (a b a' b' a'' b'' : Endpoint L)
    → Piped L P a b a' b'
    → Piped L P a' b' a'' b''
    → Piped L P a b a'' b''
Piped-trans L P a b a' b' a'' b'' p q = record {
  same_stream = q.same_stream ∙ p.same_stream;
  source = q.source;
  clear = q.clear;
  back_stream = q.back_stream ∙ p.back_stream;
  back_source = λ s. q.back_source (p.back_source s);
  back_clear = λ c. q.back_clear (p.back_clear c);
}

module _ (L : Libs) (P : ℕ → Type 0) where
  -- A source whose buffer has changed, and nothing of what is unread in it.
  IsSource-with :
      (from from' : Endpoint L)
      → IsSource L P from
      → All P (unread L from')
      → IsValid from'.iobuf_in
      → from'.re ≡ from.re
      → from'.patterns ≡ from.patterns
      → from'.mccp_in ≡ from.mccp_in
      → (Answers L from → Answers L from')
      → IsSource L P from'
  IsSource-with from from' s all v r p m a = record {
    rules = record { code = s.rules.code; is_set = r ∙ s.rules.is_set; inside = s.rules.inside };
    harmless = subst (Harmless L P s.rules.code) (sym p) s.harmless;
    complete = s.complete;
    all = all;
    valid = v;
    plain_in = m ∙ s.plain_in;
    live = a s.live;
  }

  -- A read, with what it brought behind the contents.
  pub fetched :
      (from to from' : Endpoint L)
      → IsSource L P from
      → IsClear L to
      → unread L from' ≡ unread L from
      → IsValid from'.iobuf_in
      → from'.re ≡ from.re
      → from'.patterns ≡ from.patterns
      → from'.mccp_in ≡ from.mccp_in
      → (Answers L from → Answers L from')
      → from'.wire.sent ≡ from.wire.sent
      → from'.mccp_out ≡ from.mccp_out
      → from'.wire.outgoing ≡ from.wire.outgoing
      → Piped L P from to from' to
  fetched from to from' s c u v r p m a sent out going = record {
    same_stream = ap (λ t. to.wire.sent ++ t) u;
    source = IsSource-with from from' s (subst (All P) (sym u) s.all) v r p m a;
    clear = c;
    back_stream = ap (λ t. t ++ unread L to) sent;
    back_source = λ b. b;
    back_clear = λ b. record { plain = out ∙ b.plain; open_wire = going ∙ b.open_wire };
  }

  -- The matching loop.
  pub looped :
      (from to from' to' : Endpoint L)
      → IsSource L P from
      → Carried L from to from' to'
      → Piped L P from to from' to'
  looped from to from' to' s k =
      let e = k.elsewhere in
      let coming = ap (λ (w : Wire). to_come w.incoming) e.from_wire in
      let u : unread L from'
          ≡ drop k.passed (contents from.iobuf_in) ++ to_come from.wire.incoming =
        ap (λ t. contents from'.iobuf_in ++ t) coming
        ∙ ap (λ t. t ++ to_come from.wire.incoming) k.rest in
      record {
        same_stream =
            ap (λ t. to'.wire.sent ++ (contents from'.iobuf_in ++ t)) coming
            ∙ sym
                (append_assoc to'.wire.sent (contents from'.iobuf_in) (to_come from.wire.incoming))
            ∙ ap (λ t. t ++ to_come from.wire.incoming) k.flight
            ∙ append_assoc to.wire.sent (contents from.iobuf_in) (to_come from.wire.incoming);
        source =
            IsSource-with from from' s
              (subst (All P) (sym u) (
                All-append P (drop k.passed (contents from.iobuf_in)) (to_come from.wire.incoming)
                  (All-drop P k.passed (contents from.iobuf_in)
                    (All-front P (contents from.iobuf_in) (to_come from.wire.incoming) s.all))
                  (All-back P (contents from.iobuf_in) (to_come from.wire.incoming) s.all)))
              k.valid k.same_re k.same_patterns e.from_mccp_in
              (Answers-same L from from' e.from_ssl (ap (λ (w : Wire). w.incoming) e.from_wire));
        clear = k.clear;
        back_stream =
            ap (λ (w : Wire). w.sent ++ (contents to'.iobuf_in ++ to_come to'.wire.incoming))
              e.from_wire
            ∙ ap (λ (b : Iobuf). from.wire.sent ++ (contents b ++ to_come to'.wire.incoming))
                e.to_in
            ∙ ap (λ t. from.wire.sent ++ (contents to.iobuf_in ++ to_come t)) e.to_incoming;
        back_source = λ b.
            IsSource-with to to' b
              (subst (All P)
                (sym (
                  ap (λ (i : Iobuf). contents i ++ to_come to'.wire.incoming) e.to_in
                  ∙ ap (λ t. contents to.iobuf_in ++ to_come t) e.to_incoming))
                b.all)
              (subst IsValid (sym e.to_in) b.valid) e.to_re e.to_patterns e.to_mccp_in
              (Answers-same L to to' e.to_ssl e.to_incoming);
        back_clear = λ b. record {
          plain = e.from_mccp_out ∙ b.plain;
          open_wire = ap (λ (w : Wire). w.outgoing) e.from_wire ∙ b.open_wire;
        };
      }
