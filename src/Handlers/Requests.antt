-- ===== src/Handlers/Requests.antt =====
-- What `mnes_request` (handlers.c) tells the game that asks for the variables.
use mudit_m.Base.{
  ℕ, ◌+◌, ◌<◌, ◌≡◌, refl, sym, ap, ◌∙◌, Bool, true, false, Option, none, some, List, [], ◌∷◌, ◌++◌,
  length, length-append, drop, codes, ◌==◌, if◌then◌else◌, arith,
}
use mathlib.Core.List.{append_assoc, append-nil}
use mudit_m.Libs.{Libs}
use mudit_m.Posix.{Ret}
use mudit_m.Run.{Returns, Returns-bind}
use mudit_m.Telnet.{wont}
use mudit_m.Iobuf.{Iobuf, contents, avail_iobuf, len_iobuf, print_iobuf, pop_iobuf}
use mudit_m.Iobuf.Bounds.{IsValid, print_iobuf-IsValid, avail_iobuf_lem}
use mudit_m.Iobuf.Contents.{contents-print_iobuf, contents-pop_iobuf, length-contents}
use mudit_m.Conf.{KeyFile}
use mudit_m.Endpoint.{Endpoint}
use mudit_m.Endpoint.Io.{flush_endpoint, addr_endpoint}
use mudit_m.Endpoint.Delivery.{outbound}
use mudit_m.Handlers.{mnes_pair, proxy_name, pop_match}
use mudit_m.Handlers.Answers.{Says, spoken}
use mudit_m.Handlers.Bounds.{IsSound}
use mudit_m.Handlers.Mnes.{compression_status, print_reports, queue_reports, mnes_request}

-- The variables that the configuration names.
abbrev pub configured : Option (List (List ℕ)) → List (List ℕ)
configured none = []
configured (some vars) = vars

-- A pair for each variable, in order.
abbrev pub pairs : List (List ℕ) → List ℕ → List ℕ
pairs [] addrtxt = []
pairs (var ∷ vars) addrtxt = mnes_pair var addrtxt ++ pairs vars addrtxt

-- The proxy's name, the state of compression, and the client's address under each configured name.
abbrev pub report_of : (L : Libs) → KeyFile → Endpoint L → List ℕ
report_of L gkf to =
    mnes_pair (codes "PROXY_NAME") proxy_name
    ++ (mnes_pair (codes "COMPRESSION") (compression_status to.mccp_nego)
        ++ pairs (configured (gkf.get_string_list "muditm" "newenv_ipaddress"))
            (addr_endpoint to.wire.peer))

-- An output buffer to which a text was added.
record Added (text : List ℕ) (out out' : Iobuf) : Type 0 where
  pub valid : IsValid out'
  pub added : contents out' ≡ contents out ++ text
  pub space : avail_iobuf out' + length text ≡ avail_iobuf out

length-print_iobuf : (iob : Iobuf) (text : List ℕ) → (print_iobuf iob text).length ≡ iob.length
unfolding print_iobuf
length-print_iobuf iob text = ground arith

print_iobuf-Added :
    (out : Iobuf) (text : List ℕ)
    → IsValid out
    → length text < avail_iobuf out
    → Added text out (print_iobuf out text)
unfolding len_iobuf
print_iobuf-Added out text v fits =
    let v' = print_iobuf-IsValid out text v in
    let c = contents-print_iobuf out text v fits in
    record {
      valid = v';
      added = c;
      space = omega (
        arith,
        avail_iobuf_lem out v,
        avail_iobuf_lem (print_iobuf out text) v',
        length-print_iobuf out text,
        length-contents out v,
        length-contents (print_iobuf out text) v',
        ap (λ (t : List ℕ). length t) c,
        length-append (contents out) text,
        v.within,
        fits,
      );
    }

Added-append : (xs ys : List ℕ) (a b c : Iobuf) → Added xs a b → Added ys b c → Added (xs ++ ys) a c
Added-append xs ys a b c p q = record {
  valid = q.valid;
  added = q.added ∙ ap (λ t. t ++ ys) p.added ∙ append_assoc (contents a) xs ys;
  space = omega (arith, p.space, q.space, length-append xs ys);
}

module _ (L : Libs) where
  queued_pairs :
      (vars : List (List ℕ)) (addrtxt : List ℕ) (ep : Endpoint L) (out : Iobuf)
      → IsValid out
      → length (pairs vars addrtxt) < avail_iobuf out
      → (out' : Iobuf) × (print_reports L vars addrtxt (record ep { iobuf_out = out })
          ≡ record ep { iobuf_out = out' })
        × Added (pairs vars addrtxt) out out'
  queued_pairs [] addrtxt ep out v fits = (
    out,
    refl,
    record { valid = v; added = sym (append-nil (contents out)); space = omega arith },
  )
  queued_pairs (var ∷ vars) addrtxt ep out v fits =
      let text = mnes_pair var addrtxt in
      let one =
        print_iobuf-Added out text v
          (omega (arith, fits, length-append text (pairs vars addrtxt))) in
      let (out', e, more) =
        queued_pairs vars addrtxt ep (print_iobuf out text) one.valid
          (omega (arith, fits, one.space, length-append text (pairs vars addrtxt))) in
      (out', e, Added-append text (pairs vars addrtxt) out (print_iobuf out text) out' one more)

  queued_vars :
      (vars : Option (List (List ℕ))) (addrtxt : List ℕ) (ep : Endpoint L) (out : Iobuf)
      → IsValid out
      → length (pairs (configured vars) addrtxt) < avail_iobuf out
      → (out' : Iobuf) × ((elim vars [
        | none ↦ record ep { iobuf_out = out }
        | some names ↦ print_reports L names addrtxt (record ep { iobuf_out = out })
      ])
          ≡ record ep { iobuf_out = out' })
        × Added (pairs (configured vars) addrtxt) out out'
  queued_vars none addrtxt ep out v fits = queued_pairs [] addrtxt ep out v fits
  queued_vars (some vars) addrtxt ep out v fits = queued_pairs vars addrtxt ep out v fits

  queued :
      (gkf : KeyFile) (from to : Endpoint L)
      → IsValid from.iobuf_out
      → length (report_of L gkf to) < avail_iobuf from.iobuf_out
      → (out' : Iobuf) × (queue_reports L gkf from to ≡ record from { iobuf_out = out' })
        × Added (report_of L gkf to) from.iobuf_out out'
  queued gkf from to v fits =
      let name = mnes_pair (codes "PROXY_NAME") proxy_name in
      let status = mnes_pair (codes "COMPRESSION") (compression_status to.mccp_nego) in
      let vars = gkf.get_string_list "muditm" "newenv_ipaddress" in
      let addrtxt = addr_endpoint to.wire.peer in
      let rest = pairs (configured vars) addrtxt in
      let out1 = print_iobuf from.iobuf_out name in
      let out2 = print_iobuf out1 status in
      let n = length-append name (status ++ rest) in
      let m = length-append status rest in
      let a = print_iobuf-Added from.iobuf_out name v (omega (arith, fits, n, m)) in
      let b = print_iobuf-Added out1 status a.valid (omega (arith, fits, n, m, a.space)) in
      let (out', e, c) =
        queued_vars vars addrtxt from out2 b.valid (omega (arith, fits, n, m, a.space, b.space)) in
      (
        out',
        e,
        Added-append name (status ++ rest) from.iobuf_out out1 out' a
            (Added-append status rest out1 out2 out' b c),
      )

  -- The game's side behind its request, and whether the request goes on to the client.
  pub record Reported (gkf : KeyFile) (n : ℕ) (from to : Endpoint L) (handled : Bool)
      (from' to' : Endpoint L) : Type 0 where
    pub told : outbound L from' ≡ outbound L from ++ report_of L gkf to
    pub filtered : handled ≡ (to.mnes_state == wont)
    pub taken : contents from'.iobuf_in ≡ (
        if to.mnes_state == wont then drop n (contents from.iobuf_in) else contents from.iobuf_in)
    pub untouched : to' ≡ to

  abbrev pub ReportedBy :
      KeyFile → ℕ → Endpoint L → Endpoint L → Bool × Endpoint L × Endpoint L → Type 0
  ReportedBy gkf n from to (handled, from', to') = Reported gkf n from to handled from' to'

  filtered_or_not :
      (gkf : KeyFile) (n : ℕ) (from to from' : Endpoint L) (b : Bool)
      → IsValid from.iobuf_in
      → Says L (report_of L gkf to) from from'
      → (to.mnes_state == wont) ≡ b
      → ReportedBy gkf n from to (if b then (true, pop_match L n from', to) else (false, from', to))
  filtered_or_not gkf n from to from' true v k e = record {
    told = k.said;
    filtered = sym e;
    taken = rw e (
        ap (λ (i : Iobuf). contents (pop_iobuf i n)) k.kept.same_in
        ∙ contents-pop_iobuf from.iobuf_in n v);
    untouched = refl;
  }
  filtered_or_not gkf n from to from' false v k e = record {
    told = k.said;
    filtered = sym e;
    taken = rw e (ap contents k.kept.same_in);
    untouched = refl;
  }

  -- The game asks for its variables, both its buffers are valid, its side has no compression and
  -- space for the report: behind all that it was told before it is told the proxy's name, whether
  -- the client's output is compressed, and the client's address under each configured name, in
  -- order; the request counts as handled exactly if the client refused NEW-ENVIRON, it is off the
  -- input exactly then, and nothing is done to the client's side.
  pub mnes_request_reports :
      (gkf : KeyFile) (n : ℕ) (from to : Endpoint L)
      → IsSound L from
      → from.mccp_out ≡ none
      → length (report_of L gkf to) < avail_iobuf from.iobuf_out
      → Returns (ReportedBy gkf n from to) (mnes_request L gkf n from to)
  unfolding mnes_request
  mnes_request_reports gkf n from to s plain fits =
      let (out', e, a) = queued gkf from to s.out_valid fits in
      rw e (
        Returns-bind (λ (r : Ret × Endpoint L). Says L (report_of L gkf to) from r.1)
          (ReportedBy gkf n from to) (flush_endpoint L (record from { iobuf_out = out' })) _
          (spoken L from out' (report_of L gkf to) a.valid plain a.added)
          (λ r k.
            filtered_or_not gkf n from to r.1 (to.mnes_state == wont) s.in_valid.valid k refl))
