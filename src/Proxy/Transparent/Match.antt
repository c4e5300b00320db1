-- ===== src/Proxy/Transparent/Match.antt =====
-- The matching loop of `muditm_proxy` (proxy.c) over actions that only take note of
-- their match: one match.
use mudit_m.Base.{
  ℕ, zero, suc, ◌-◌, ◌≤◌, ◌≡◌, refl, sym, ap, ◌∙◌, Bool, false, Option, none, some, List, ◌++◌,
  arith, length, take, take_all, take-take, take-append-drop,
}
use mathlib.Core.Path.{subst}
use mathlib.Core.List.{append_assoc}
use mudit_m.Iobuf.{Iobuf, pop_iobuf, peek_iobuf, contents}
use mudit_m.Iobuf.Bounds.{IsValid, pop_iobuf-IsValid, tail-pop_iobuf}
use mudit_m.Iobuf.Contents.{contents-pop_iobuf}
use mudit_m.Posix.{count}
use mudit_m.Run.{ok, Returns}
use mudit_m.Conf.{KeyFile}
use mudit_m.Endpoint.{Endpoint, Pattern, PatternAction}
use mudit_m.Endpoint.Io.{write_endpoint}
use mudit_m.Endpoint.Delivery.{write_endpoint_plain}
use mudit_m.Endpoint.Compressed.{sent_all, write_endpoint_sock_open}
use mudit_m.Handlers.{pop_match, disable_matching}
use mudit_m.Handlers.Mnes.{mnes_client_will, mnes_does}
use mudit_m.Handlers.Mccp.{ignore_match}
use mudit_m.Handlers.Patterns.{run_action}
use mudit_m.Proxy.{ship, handle, handle_by, forward_unless}
use mudit_m.Libs.{Libs}
use mudit_m.Proxy.Transparent.{TakesNote, IsClear, Carried}

module _ (L : Libs) where
  pub write_endpoint_clear :
      (ep : Endpoint L) (buf : List ℕ)
      → IsClear L ep
      → write_endpoint L ep buf ≡ ok (count (length buf), sent_all L buf ep)
  write_endpoint_clear ep buf c =
      write_endpoint_plain L ep buf c.plain ∙ ap ok (write_endpoint_sock_open L ep buf c.open_wire)

  -- The first bytes of a buffer and the rest of it.
  split_contents :
      (iob : Iobuf) (n : ℕ)
      → IsValid iob
      → n ≤ iob.tail
      → take (length (peek_iobuf iob n)) (peek_iobuf iob n) ++ contents (pop_iobuf iob n)
        ≡ contents iob
  split_contents iob n v h =
      rw
        (
          contents-pop_iobuf iob n v,
          take_all (length (peek_iobuf iob n)) (peek_iobuf iob n) (omega arith),
          ← take-take n iob.tail iob.block h,
        )
        (take-append-drop n (contents iob))

  -- A copy of the first bytes to the other side, and a pop of them.
  copied :
      (n : ℕ) (from to : Endpoint L)
      → IsClear L to
      → IsValid from.iobuf_in
      → n ≤ from.iobuf_in.tail
      → Carried L from to (pop_match L n from) (sent_all L (peek_iobuf from.iobuf_in n) to)
  copied n from to c v h = record {
    flight =
        append_assoc to.wire.sent _ _
        ∙ ap (λ t. to.wire.sent ++ t) (split_contents from.iobuf_in n v h);
    clear = record { plain = c.plain; open_wire = refl };
    valid = pop_iobuf-IsValid from.iobuf_in n v;
    same_re = refl;
    same_patterns = refl;
    passed = n;
    rest = contents-pop_iobuf from.iobuf_in n v;
    elsewhere = record {
      from_wire = refl;
      from_ssl = refl;
      from_mccp_in = refl;
      from_mccp_out = refl;
      to_in = refl;
      to_incoming = refl;
      to_ssl = refl;
      to_mccp_in = refl;
      to_re = refl;
      to_patterns = refl;
    };
  }

  -- What an action that takes note of its match leaves as it was.
  pub record SameBut (from from' : Endpoint L) : Type 0 where
    pub same_in : from'.iobuf_in ≡ from.iobuf_in
    pub same_re : from'.re ≡ from.re
    pub same_patterns : from'.patterns ≡ from.patterns
    pub same_wire : from'.wire ≡ from.wire
    pub same_ssl : from'.ssl ≡ from.ssl
    pub same_mccp_in : from'.mccp_in ≡ from.mccp_in
    pub same_mccp_out : from'.mccp_out ≡ from.mccp_out

  pub standing :
      (from to from' : Endpoint L)
      → IsClear L to
      → IsValid from.iobuf_in
      → SameBut from from'
      → Carried L from to from' to
  standing from to from' c v k = record {
    flight = ap (λ b. to.wire.sent ++ contents b) k.same_in;
    clear = c;
    valid = subst IsValid (sym k.same_in) v;
    same_re = k.same_re;
    same_patterns = k.same_patterns;
    passed = 0;
    rest = ap contents k.same_in;
    elsewhere = record {
      from_wire = k.same_wire;
      from_ssl = k.same_ssl;
      from_mccp_in = k.same_mccp_in;
      from_mccp_out = k.same_mccp_out;
      to_in = refl;
      to_incoming = refl;
      to_ssl = refl;
      to_mccp_in = refl;
      to_re = refl;
      to_patterns = refl;
    };
  }

  unchanged :
      (from from' : Endpoint L)
      → from'.iobuf_in ≡ from.iobuf_in
      → from'.re ≡ from.re
      → from'.patterns ≡ from.patterns
      → from'.wire ≡ from.wire
      → from'.ssl ≡ from.ssl
      → from'.mccp_in ≡ from.mccp_in
      → from'.mccp_out ≡ from.mccp_out
      → SameBut from from'
  unchanged from from' i r p w s a b = record {
    same_in = i;
    same_re = r;
    same_patterns = p;
    same_wire = w;
    same_ssl = s;
    same_mccp_in = a;
    same_mccp_out = b;
  }

  pub SameBut-refl : (from : Endpoint L) → SameBut from from
  SameBut-refl from = unchanged from from refl refl refl refl refl refl refl

  -- A copy, and the length that is left.
  abbrev pub Shortened : ℕ → Endpoint L → Endpoint L → Endpoint L × Endpoint L → Type 0
  Shortened n from to (from', to') =
      Carried L from to from' to' × (from'.iobuf_in.tail ≡ from.iobuf_in.tail - n)

  pub ship-Shortened :
      (n : ℕ) (from to : Endpoint L)
      → IsClear L to
      → IsValid from.iobuf_in
      → n ≤ from.iobuf_in.tail
      → Returns (Shortened n from to) (ship L n from to)
  unfolding ship
  ship-Shortened zero from to c v h = (standing from to from c v (SameBut-refl from), omega arith)
  ship-Shortened (suc n) from to c v h =
      rw (write_endpoint_clear to (peek_iobuf from.iobuf_in (suc n)) c)
        (copied (suc n) from to c v h, tail-pop_iobuf from.iobuf_in (suc n))

  pub forward-Shortened :
      (n : ℕ) (from to : Endpoint L)
      → IsClear L to
      → IsValid from.iobuf_in
      → n ≤ from.iobuf_in.tail
      → Returns (Shortened n from to) (forward_unless L false n from to)
  unfolding forward_unless
  forward-Shortened n from to c v h =
      rw (write_endpoint_clear to (peek_iobuf from.iobuf_in n) c)
        (copied n from to c v h, tail-pop_iobuf from.iobuf_in n)

  -- An action that takes note of its match leaves buffers and the other side alone, and returns 0.
  abbrev pub Noted : Endpoint L → Endpoint L → Bool × Endpoint L × Endpoint L → Type 0
  Noted from to (handled, from', to') = (handled ≡ false) × (to' ≡ to) × SameBut from from'

  handle_by-Noted :
      (gkf : KeyFile) (a : Option PatternAction) (n : ℕ) (from to : Endpoint L)
      → TakesNote a
      → Returns (Noted from to) (handle_by L gkf a n from to)
  unfolding run_action mnes_client_will mnes_does ignore_match disable_matching
  handle_by-Noted gkf none n from to h = (refl, refl, SameBut-refl from)
  handle_by-Noted gkf (some PatternAction.mnes_client_will) n from to h =
      (refl, refl, unchanged from _ refl refl refl refl refl refl refl)
  handle_by-Noted gkf (some PatternAction.mnes_does) n from to h =
      (refl, refl, unchanged from _ refl refl refl refl refl refl refl)
  handle_by-Noted gkf (some PatternAction.ignore_match) n from to h =
      (refl, refl, unchanged from _ refl refl refl refl refl refl refl)
  handle_by-Noted gkf (some _) n from to h = absurd h

  pub handle-Noted :
      (gkf : KeyFile) (p : Option Pattern) (n : ℕ) (from to : Endpoint L)
      → ((q : Pattern) → p ≡ some q → TakesNote q.action)
      → Returns (Noted from to) (handle L gkf p n from to)
  unfolding handle
  handle-Noted gkf none n from to h = (refl, refl, SameBut-refl from)
  handle-Noted gkf (some q) n from to h = handle_by-Noted gkf q.action n from to (h q refl)
