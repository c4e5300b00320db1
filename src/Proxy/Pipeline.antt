-- ===== src/Proxy/Pipeline.antt =====
-- The service of a side in `muditm_proxy` (proxy.c) as a pipe: the read and the loop behind it.
use mudit_m.Base.{
  ◌≤◌, ℕ, zero, suc, ◌≡◌, refl, sym, ap, ◌∙◌, List, [], ◌∷◌, ◌++◌, length, arith, All-front,
}
use mathlib.Core.List.{append_assoc}
use mathlib.Core.Path.{subst}
use mudit_m.Libs.{Libs}
use mudit_m.Posix.{Ret, eagain, other_errno}
use mudit_m.Iobuf.{Iobuf, contents, avail_iobuf, len_iobuf}
use mudit_m.Iobuf.Bounds.{IsValid}
use mudit_m.Run.{Returns, Returns-bind}
use mudit_m.Conf.{KeyFile}
use mudit_m.Endpoint.{Endpoint}
use mudit_m.Endpoint.Io.{read_endpoint}
use mudit_m.Endpoint.Arrivals.{to_come, Fetched, FetchedBy, read_endpoint-Fetched}
use mudit_m.Proxy.{Served, goes_on, ends, after_read, serve, match_loop}
use mudit_m.Proxy.Received.{received, received-IsValid, receive_frame}
use mudit_m.Proxy.Transparent.{IsClear}
use mudit_m.Proxy.Carries.{Passed, match_loop-Passed}
use mudit_m.Proxy.Piped.{IsSource, Piped, Piped-trans, fetched, looped, contents-received}

length_zero : (xs : List ℕ) → length xs ≡ 0 → xs ≡ []
length_zero [] e = refl
length_zero (x ∷ xs) e = absurd (omega (arith, e))

module _ (L : Libs) (P : ℕ → Type 0) (gkf : KeyFile) where
  -- A stretch of the service that leaves no input where there was none, and the other side's input
  -- alone.
  pub record Drawn (from to from' to' : Endpoint L) : Type 0 where
    pub piped : Piped L P from to from' to'
    pub still_empty : from.iobuf_in.tail ≡ 0 → from'.iobuf_in.tail ≡ 0
    pub back_in : to'.iobuf_in ≡ to.iobuf_in

  -- After a service: the loop goes on with both sides, or it has left with them.
  abbrev pub PipedServed : Endpoint L → Endpoint L → Served L → Type 0
  PipedServed from to (goes_on from' to') = Drawn from to from' to'
  PipedServed from to (ends ret from' to') = Drawn from to from' to'

  read_nothing :
      (n : ℕ) (from to from1 : Endpoint L) (ret : Ret) (bytes : List ℕ)
      → IsSource L P from
      → IsClear L to
      → Fetched L n from ret bytes from1
      → bytes ≡ []
      → Drawn from to from1 to
  read_nothing n from to from1 ret bytes s c f e = record {
    still_empty = λ z. ap (λ (b : Iobuf). b.tail) f.frame.same_in ∙ z;
    back_in = refl;
    piped =
        fetched L P from to from1 s c
          (ap (λ (b : Iobuf). contents b ++ to_come from1.wire.incoming) f.frame.same_in
            ∙ ap (λ t. contents from.iobuf_in ++ (t ++ to_come from1.wire.incoming)) (sym e)
            ∙ ap (λ t. contents from.iobuf_in ++ t) f.conveyed)
          (subst IsValid (sym f.frame.same_in) s.valid) f.frame.same_re f.frame.same_patterns
          f.same_mccp_in f.frame.answers f.same_sent f.frame.same_mccp_out f.frame.same_outgoing;
  }

  read_some :
      (n : ℕ) (from to from1 : Endpoint L) (ret : Ret) (bytes : List ℕ) (k : ℕ)
      → n ≡ avail_iobuf from.iobuf_in
      → IsSource L P from
      → IsClear L to
      → Fetched L n from ret bytes from1
      → k ≡ length bytes
      → Piped L P from to (record from1 { iobuf_in = received from1.iobuf_in bytes k }) to
  read_some n from to from1 ret bytes k e s c f counted =
      let v = subst IsValid (sym f.frame.same_in) s.valid in
      let space : avail_iobuf from1.iobuf_in ≡ n = ap avail_iobuf f.frame.same_in ∙ sym e in
      fetched L P from to (record from1 { iobuf_in = received from1.iobuf_in bytes k }) s c
        (ap (λ t. t ++ to_come from1.wire.incoming)
            (contents-received from1.iobuf_in bytes k v counted
              (omega (arith, f.frame.bounded, counted, space)))
          ∙ append_assoc (contents from1.iobuf_in) bytes (to_come from1.wire.incoming)
          ∙ ap (λ t. contents from1.iobuf_in ++ t) f.conveyed
          ∙ ap (λ (b : Iobuf). contents b ++ to_come from.wire.incoming) f.frame.same_in)
        (received-IsValid from1.iobuf_in bytes k v) f.frame.same_re f.frame.same_patterns
        f.same_mccp_in f.frame.answers f.same_sent f.frame.same_mccp_out f.frame.same_outgoing

  after_read-Piped :
      (n : ℕ) (from to from1 : Endpoint L) (ret : Ret) (bytes : List ℕ)
      → n ≡ avail_iobuf from.iobuf_in
      → IsSource L P from
      → IsClear L to
      → Fetched L n from ret bytes from1
      → Returns (PipedServed from to) (after_read L gkf ret bytes from1 to)
  unfolding after_read len_iobuf
  after_read-Piped n from to from1 (Ret.failed eagain) bytes e s c f =
      read_nothing n from to from1 (Ret.failed eagain) bytes s c f f.frame.counts
  after_read-Piped n from to from1 (Ret.failed other_errno) bytes e s c f =
      read_nothing n from to from1 (Ret.failed other_errno) bytes s c f f.frame.counts
  after_read-Piped n from to from1 (Ret.count zero) bytes e s c f =
      read_nothing n from to from1 (Ret.count zero) bytes s c f
        (length_zero bytes (sym f.frame.counts))
  after_read-Piped n from to from1 (Ret.count (suc k)) bytes e s c f =
      let p = read_some n from to from1 (Ret.count (suc k)) bytes (suc k) e s c f f.frame.counts in
      let start = record from1 { iobuf_in = received from1.iobuf_in bytes (suc k) } in
      let room : length bytes ≤ avail_iobuf from.iobuf_in = omega (arith, e, f.frame.bounded) in
      rw
        (receive_frame from.iobuf_in from1.iobuf_in bytes (suc k)
          (subst IsValid (sym f.frame.same_in) s.valid) f.frame.same_in room)
        (Returns-bind (Passed L P p.source.rules.code start to) _
          (match_loop L gkf (suc start.iobuf_in.tail) start to) _
          (match_loop-Passed L gkf P (suc start.iobuf_in.tail) start to p.source.rules
            p.source.harmless
            (All-front P (contents start.iobuf_in) (to_come start.wire.incoming) p.source.all)
            p.clear p.source.valid (omega arith))
          (λ (from', to') k. record {
            piped =
                Piped-trans L P from to start to from' to' p
                  (looped L P start to from' to' p.source k.0);
            still_empty = λ z. k.1 p.source.complete;
            back_in = k.0.elsewhere.to_in;
          }))

  pub serve-Piped :
      (from to : Endpoint L)
      → IsSource L P from
      → IsClear L to
      → Returns (PipedServed from to) (serve L gkf from to)
  unfolding serve
  serve-Piped from to s c =
      Returns-bind (FetchedBy L (avail_iobuf from.iobuf_in) from) _
        (read_endpoint L from (avail_iobuf from.iobuf_in)) _
        (read_endpoint-Fetched L from (avail_iobuf from.iobuf_in) s.plain_in s.live)
        (λ (ret, bytes, from1) f.
          after_read-Piped (avail_iobuf from.iobuf_in) from to from1 ret bytes refl s c f)
