-- ===== src/Endpoint/Inflates.antt =====
-- `read_endpoint_compressed` of mccp.c: the rounds of its loop.
use mudit_m.Base.{
  ℕ, zero, suc, ◌+◌, ◌≤◌, ◌<◌, ◌≡◌, refl, ◌∙◌, true, false, none, some, List, [], ◌∷◌, arith,
  length, drop, length-drop, Bool-cases, Option-cases, inl, inr,
}
use mudit_m.Libs.{Libs, InflateLaws, Inflated, inflated, problem}
use mudit_m.Posix.{Ret}
use mudit_m.Run.{Run, Returns, Returns-bind, Returns-weaken}
use mudit_m.Endpoint.{Endpoint, InStream, ep_bufsize}
use mudit_m.Endpoint.Sock.{read_endpoint_sock}
use mudit_m.Endpoint.Stream.{
  load, is_positive, Refill, input, stop, refill, after_inflate, after_refill, inflate_loop,
  read_endpoint_compressed,
}
use mudit_m.Endpoint.Io.{read_endpoint}
use mudit_m.Endpoint.Reads.{Answers, Counts, ReadBy, read_endpoint_sock-Returns}

-- The fields that a read keeps, apart from the script.
pub record Steady (L : Libs) (ep ep' : Endpoint L) : Type 0 where
  pub same_in : ep'.iobuf_in ≡ ep.iobuf_in
  pub same_out : ep'.iobuf_out ≡ ep.iobuf_out
  pub same_re : ep'.re ≡ ep.re
  pub same_patterns : ep'.patterns ≡ ep.patterns
  pub same_mccp_out : ep'.mccp_out ≡ ep.mccp_out
  pub same_outgoing : ep'.wire.outgoing ≡ ep.wire.outgoing
  pub answers : Answers L ep → Answers L ep'

steady :
    (L : Libs) (ep ep' : Endpoint L)
    → ep'.iobuf_in ≡ ep.iobuf_in
    → ep'.iobuf_out ≡ ep.iobuf_out
    → ep'.re ≡ ep.re
    → ep'.patterns ≡ ep.patterns
    → ep'.mccp_out ≡ ep.mccp_out
    → ep'.wire.outgoing ≡ ep.wire.outgoing
    → (Answers L ep → Answers L ep')
    → Steady L ep ep'
steady L ep ep' a b c d m o e = record {
  same_in = a;
  same_out = b;
  same_re = c;
  same_patterns = d;
  same_mccp_out = m;
  same_outgoing = o;
  answers = e;
}

Steady-trans : (L : Libs) (a b c : Endpoint L) → Steady L a b → Steady L b c → Steady L a c
Steady-trans L a b c p q = record {
  same_in = q.same_in ∙ p.same_in;
  same_out = q.same_out ∙ p.same_out;
  same_re = q.same_re ∙ p.same_re;
  same_patterns = q.same_patterns ∙ p.same_patterns;
  same_mccp_out = q.same_mccp_out ∙ p.same_mccp_out;
  same_outgoing = q.same_outgoing ∙ p.same_outgoing;
  answers = λ a. q.answers (p.answers a);
}

-- What "Need more bytes?" gives: input, with the script lighter by a read if none was waiting, or a
-- reason to stop.
Filled : (L : Libs) → Endpoint L → List ℕ → Refill × Endpoint L → Type 0
Filled L ep waiting (stop ret, ep') = Steady L ep ep' × (is_positive ret ≡ false)
Filled L ep waiting (input bytes, ep') =
    Steady L ep ep'
    × (load ep'.wire.incoming + length bytes ≤ load ep.wire.incoming + length waiting)

-- What a compressed read gives: at most `n` bytes and their count, or no bytes.
abbrev pub Yields : (L : Libs) → ℕ → Endpoint L → Ret × List ℕ × Endpoint L → Type 0
Yields L n ep (ret, bytes, ep') =
    Steady L ep ep' × (length bytes ≤ n) × ((is_positive ret ≡ true) → Counts ret bytes)

module _ (L : Libs) where
  refill-Filled :
      (ep : Endpoint L) (waiting : List ℕ)
      → Answers L ep
      → Returns (Filled L ep waiting) (refill L ep waiting)
  unfolding refill Filled
  refill-Filled ep [] plain =
      Returns-bind (ReadBy L ep_bufsize ep) _ (read_endpoint_sock L ep ep_bufsize) _
        (read_endpoint_sock-Returns L ep ep_bufsize plain)
        (λ (ret, bytes, ep') r.
          let kept =
            steady L ep ep' r.same_in r.same_out r.same_re r.same_patterns r.same_mccp_out
              r.same_outgoing r.answers in
          elim (Bool-cases (is_positive ret)) [
            | inl got ↦ rw got (kept, omega (arith, r.lighter))
            | inr nothing ↦ rw nothing (kept, nothing)
          ])
  refill-Filled ep (b ∷ waiting) plain =
      (steady L ep ep refl refl refl refl refl refl (λ a. a), omega arith)

module _ (L : Libs) (laws : InflateLaws L) (n : ℕ) (fuel : ℕ) where
  module _ (again : L.Inflater → List ℕ → Endpoint L → Run (Ret × List ℕ × Endpoint L))
      (ends : (z : L.Inflater) (waiting : List ℕ) (ep : Endpoint L)
        → Answers L ep
        → load ep.wire.incoming + length waiting < fuel
        → Returns (Yields L n ep) (again z waiting ep)) where
    after_inflate-Yields :
        (z : L.Inflater) (bytes : List ℕ) (ep : Endpoint L) (r : Inflated L.Inflater)
        → Answers L ep
        → load ep.wire.incoming + length bytes < suc fuel
        → L.inflate z bytes n ≡ r
        → Returns (Yields L n ep) (after_inflate L again z bytes ep r)
    unfolding after_inflate
    after_inflate-Yields z bytes ep (problem z' used output errno) plain h e =
        (steady L ep _ refl refl refl refl refl refl (λ a. a), omega arith, λ p. cc)
    after_inflate-Yields z bytes ep (inflated z' used []) plain h e =
        let moved = laws.inflate_moves z z' bytes [] n used e in
        ends z' (drop used bytes) ep plain (omega (arith, length-drop used bytes, moved))
    after_inflate-Yields z bytes ep (inflated z' used (b ∷ output)) plain h e = (
      steady L ep _ refl refl refl refl refl refl (λ a. a),
      (laws.inflate_moves z z' bytes (b ∷ output) n used e).0,
      λ p. refl,
    )

    after_refill-Yields :
        (z : L.Inflater) (waiting : List ℕ) (ep : Endpoint L) (filled : Refill × Endpoint L)
        → Answers L ep
        → load ep.wire.incoming + length waiting < suc fuel
        → Filled L ep waiting filled
        → Returns (Yields L n ep) (after_refill L again z n filled)
    unfolding after_refill Filled
    after_refill-Yields z waiting ep (stop ret, ep') plain h f = (
      Steady-trans L ep ep' _ f.0 (steady L ep' _ refl refl refl refl refl refl (λ a. a)),
      omega arith,
      λ p. cc,
    )
    after_refill-Yields z waiting ep (input bytes, ep') plain h f =
        Returns-weaken (Yields L n ep') _ (after_inflate L again z bytes ep' (L.inflate z bytes n))
          (after_inflate-Yields z bytes ep' (L.inflate z bytes n) (f.0.answers plain)
            (omega (arith, f.1)) refl)
          (λ (ret, got, ep'') y. (Steady-trans L ep ep' ep'' f.0 y.0, y.1, y.2))

module _ (L : Libs) where
  pub read_endpoint_plain :
      (ep : Endpoint L) (n : ℕ)
      → ep.mccp_in ≡ none
      → read_endpoint L ep n ≡ read_endpoint_sock L ep n
  unfolding read_endpoint
  read_endpoint_plain ep n none_active = simp (none_active, read_endpoint)

module _ (L : Libs) (laws : InflateLaws L) (n : ℕ) where
  inflate_loop-Yields :
      (fuel : ℕ) (z : L.Inflater) (waiting : List ℕ) (ep : Endpoint L)
      → Answers L ep
      → load ep.wire.incoming + length waiting < fuel
      → Returns (Yields L n ep) (inflate_loop L fuel z waiting n ep)
  unfolding inflate_loop
  inflate_loop-Yields zero z waiting ep plain h = absurd (omega arith)
  inflate_loop-Yields (suc fuel) z waiting ep plain h =
      Returns-bind (Filled L ep waiting) _ (refill L ep waiting) _
        (refill-Filled L ep waiting plain)
        (λ filled f.
          after_refill-Yields L laws n fuel
            (λ z' waiting' ep'. inflate_loop L fuel z' waiting' n ep')
            (λ z' waiting' ep'. inflate_loop-Yields fuel z' waiting' ep') z waiting ep filled plain
            h f)

  pub read_endpoint_compressed_eq :
      (ep : Endpoint L) (z : InStream L)
      → ep.mccp_in ≡ some z
      → read_endpoint L ep n
        ≡ inflate_loop L
            (suc (suc (length z.next_in + load ep.wire.incoming)))
            z.state
            z.next_in
            n
            ep
  unfolding read_endpoint read_endpoint_compressed
  read_endpoint_compressed_eq ep z active = simp (active, read_endpoint, read_endpoint_compressed)

  -- On a plain socket, or under TLS with a peer that hangs up in the end, and with zlib's promise
  -- that `inflate` makes progress, a read of up to n bytes returns, with or without compression
  -- and whatever the peer has sent: with at most n bytes, which a positive result counts, and
  -- with the buffers, the expression and the patterns as they were.
  pub read_endpoint-Yields :
      (ep : Endpoint L) → Answers L ep → Returns (Yields L n ep) (read_endpoint L ep n)
  read_endpoint-Yields ep plain = elim (Option-cases ep.mccp_in) [
    | inl none_active ↦ rw (read_endpoint_plain L ep n none_active) (
        Returns-weaken (ReadBy L n ep) _ (read_endpoint_sock L ep n)
          (read_endpoint_sock-Returns L ep n plain)
          (λ (ret, bytes, ep') r. (
            steady L ep ep' r.same_in r.same_out r.same_re r.same_patterns r.same_mccp_out
                r.same_outgoing r.answers,
            r.bounded,
            λ p. r.counts,
          )))
    | inr (z, active) ↦
        rw (read_endpoint_compressed_eq ep z active)
          (inflate_loop-Yields _ z.state z.next_in ep plain (omega arith))
  ]
