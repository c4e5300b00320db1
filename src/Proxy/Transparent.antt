-- ===== src/Proxy/Transparent.antt =====
-- The matching loop of `muditm_proxy` (proxy.c) over actions that only take note of their match: what
-- it keeps to.
pub mod Match
use mudit_m.Base.{
  ℕ, zero, suc, ◌+◌, ◌-◌, ◌≡◌, ap, ◌∙◌, Option, none, some, List, [], ◌∷◌, ◌++◌, take, get_elem?,
  drop, drop-drop,
}
use mathlib.Core.Path.{subst}
use mudit_m.Libs.{Libs}
use mudit_m.Iobuf.{contents}
use mudit_m.Iobuf.Bounds.{IsValid}
use mudit_m.Endpoint.{Endpoint, Pattern, PatternAction}
use mudit_m.Handlers.Mnes.{mnes_client_will, mnes_does}
use mudit_m.Handlers.Mccp.{ignore_match}

-- The actions that only take note of a match: 0 is what they return.
abbrev pub TakesNote : Option PatternAction → Type 0
TakesNote none = Unit
TakesNote (some PatternAction.mnes_client_will) = Unit
TakesNote (some PatternAction.mnes_does) = Unit
TakesNote (some PatternAction.ignore_match) = Unit
TakesNote (some _) = ⊥

-- A side that is sent to in plain, and whose socket takes all bytes.
pub record IsClear (L : Libs) (ep : Endpoint L) : Type 0 where
  pub plain : ep.mccp_out ≡ none
  pub open_wire : ep.wire.outgoing ≡ []

module _ (L : Libs) where
  -- The bytes on their way from one side to the other.
  abbrev pub in_flight : Endpoint L → Endpoint L → List ℕ
  in_flight from to = to.wire.sent ++ contents from.iobuf_in

-- What a stretch of the loop has no part in: the sockets and streams of `from`, and the way back.
pub record Elsewhere (L : Libs) (from to from' to' : Endpoint L) : Type 0 where
  pub from_wire : from'.wire ≡ from.wire
  pub from_ssl : from'.ssl ≡ from.ssl
  pub from_mccp_in : from'.mccp_in ≡ from.mccp_in
  pub from_mccp_out : from'.mccp_out ≡ from.mccp_out
  pub to_in : to'.iobuf_in ≡ to.iobuf_in
  pub to_incoming : to'.wire.incoming ≡ to.wire.incoming
  pub to_ssl : to'.ssl ≡ to.ssl
  pub to_mccp_in : to'.mccp_in ≡ to.mccp_in
  pub to_re : to'.re ≡ to.re
  pub to_patterns : to'.patterns ≡ to.patterns

-- What the loop keeps to.
pub record Carried (L : Libs) (from to from' to' : Endpoint L) : Type 0 where
  pub flight : in_flight L from' to' ≡ in_flight L from to
  pub clear : IsClear L to'
  pub valid : IsValid from'.iobuf_in
  pub same_re : from'.re ≡ from.re
  pub same_patterns : from'.patterns ≡ from.patterns
  pub passed : ℕ
  pub rest : contents from'.iobuf_in ≡ drop passed (contents from.iobuf_in)
  pub elsewhere : Elsewhere L from to from' to'

pub Elsewhere-trans :
    (L : Libs) (a b a' b' a'' b'' : Endpoint L)
    → Elsewhere L a b a' b'
    → Elsewhere L a' b' a'' b''
    → Elsewhere L a b a'' b''
Elsewhere-trans L a b a' b' a'' b'' p q = record {
  from_wire = q.from_wire ∙ p.from_wire;
  from_ssl = q.from_ssl ∙ p.from_ssl;
  from_mccp_in = q.from_mccp_in ∙ p.from_mccp_in;
  from_mccp_out = q.from_mccp_out ∙ p.from_mccp_out;
  to_in = q.to_in ∙ p.to_in;
  to_incoming = q.to_incoming ∙ p.to_incoming;
  to_ssl = q.to_ssl ∙ p.to_ssl;
  to_mccp_in = q.to_mccp_in ∙ p.to_mccp_in;
  to_re = q.to_re ∙ p.to_re;
  to_patterns = q.to_patterns ∙ p.to_patterns;
}

pub Carried-trans :
    (L : Libs) (a b a' b' a'' b'' : Endpoint L)
    → Carried L a b a' b'
    → Carried L a' b' a'' b''
    → Carried L a b a'' b''
Carried-trans L a b a' b' a'' b'' p q = record {
  flight = q.flight ∙ p.flight;
  clear = q.clear;
  valid = q.valid;
  same_re = q.same_re ∙ p.same_re;
  same_patterns = q.same_patterns ∙ p.same_patterns;
  passed = p.passed + q.passed;
  rest =
      q.rest ∙ ap (λ t. drop q.passed t) p.rest ∙ drop-drop p.passed q.passed (contents a.iobuf_in);
  elsewhere = Elsewhere-trans L a b a' b' a'' b'' p.elsewhere q.elsewhere;
}
