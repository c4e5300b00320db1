-- ===== src/Endpoint/Codec.antt =====
-- `write_endpoint_compressed` of mccp.c, and what a peer makes of the bytes that it is sent.
use mudit_m.Base.{
  ℕ, zero, suc, ◌+◌, ◌<◌, ◌≡◌, ◌≢◌, refl, sym, ap, ◌∙◌, some, List, [], ◌++◌, length, take, drop,
  arith, false, lt→ltb, Bool-cases, Option-cases, inl, inr, ◌⊎◌, ◌==◌, take_all, take-append-drop,
}
use mathlib.Core.Path.{subst}
use mathlib.Core.List.{append_assoc}
use mudit_m.Libs.{Libs, DeflateLaws}
use mudit_m.Posix.{Ret, failed, other_errno}
use mudit_m.Run.{Returns, Returns-weaken}
use mudit_m.Endpoint.{Endpoint, ep_bufsize}
use mudit_m.Endpoint.Stream.{deflate_loop, write_endpoint_compressed}
use mudit_m.Endpoint.Compressed.{write_endpoint_sock_open}

-- zlib's manual: a stream has been given some bytes and has put out others; under `Z_SYNC_FLUSH` a
-- call that leaves output space has consumed its input, and the decompressor gets all that the
-- stream was given.
pub record DeflateCodes (L : Libs) : Type 1 where
  pub decompress : List ℕ → List ℕ
  pub Coded : L.Deflater → (given made : List ℕ) → Type 0
  pub deflate_begins : (z : L.Deflater) → L.deflate_init ≡ some z → Coded z [] []
  pub deflate_moves :
      (z z' : L.Deflater) (given made input output : List ℕ) (space used : ℕ)
      → Coded z given made
      → L.deflate z input space ≡ some (z', used, output)
      → Coded z' (given ++ take used input) (made ++ output)
  pub deflate_flushes :
      (z z' : L.Deflater) (given made input output : List ℕ) (space used : ℕ)
      → Coded z given made
      → L.deflate z input space ≡ some (z', used, output)
      → length output ≢ space
      → (used ≡ length input) × (decompress (made ++ output) ≡ given ++ input)

module _ (L : Libs) (codes : DeflateCodes L) where
  -- The stream has been given all of some bytes, and what it has made of them was sent: the peer can
  -- decompress it.
  pub record Delivered (given made buf before : List ℕ) (ep' : Endpoint L) : Type 0 where
    pub stream : L.Deflater
    pub bytes : List ℕ
    pub active : ep'.mccp_out ≡ some stream
    pub coded : codes.Coded stream (given ++ buf) (made ++ bytes)
    pub sent : ep'.wire.sent ≡ before ++ bytes
    pub readable : codes.decompress (made ++ bytes) ≡ given ++ buf
    pub open_wire : ep'.wire.outgoing ≡ []

  abbrev pub DeliveredOr : (given made buf before : List ℕ) → Ret × Endpoint L → Type 0
  DeliveredOr given made buf before (ret, ep') =
      (ret ≡ failed other_errno) ⊎ Delivered given made buf before ep'

  -- A full block was sent, and the rest behind it.
  onwards :
      (given made buf output : List ℕ) (used : ℕ) (before : List ℕ) (r : Ret × Endpoint L)
      → DeliveredOr (given ++ take used buf) (made ++ output) (drop used buf) (before ++ output) r
      → DeliveredOr given made buf before r
  onwards given made buf output used before (ret, ep') (inl e) = inl e
  onwards given made buf output used before (ret, ep') (inr d) =
      let g : (given ++ take used buf) ++ drop used buf ≡ given ++ buf =
        append_assoc given (take used buf) (drop used buf)
        ∙ ap (λ t. given ++ t) (take-append-drop used buf) in
      let m = append_assoc made output d.bytes in
      inr (record {
        stream = d.stream;
        bytes = output ++ d.bytes;
        active = d.active;
        coded =
            subst (λ t. codes.Coded d.stream (given ++ buf) t) m
              (subst (λ t. codes.Coded d.stream t ((made ++ output) ++ d.bytes)) g d.coded);
        sent = d.sent ∙ append_assoc before output d.bytes;
        readable = ap codes.decompress (sym m) ∙ d.readable ∙ g;
        open_wire = d.open_wire;
      })

module _ (L : Libs) (codes : DeflateCodes L) (laws : DeflateLaws L) where
  deflate_loop-Delivers :
      (fuel : ℕ) (z : L.Deflater) (given made buf : List ℕ) (consumed : ℕ) (ep : Endpoint L)
      → codes.Coded z given made
      → L.deflate_debt z buf < fuel
      → ep.wire.outgoing ≡ []
      → Returns
          (DeliveredOr L codes given made buf ep.wire.sent)
          (deflate_loop L fuel z buf consumed ep)
  unfolding deflate_loop
  deflate_loop-Delivers zero z given made buf consumed ep c h e = absurd (omega arith)
  deflate_loop-Delivers (suc fuel) z given made buf consumed ep c h e =
      elim (Option-cases (L.deflate z buf ep_bufsize)) [
        | inl d ↦ rw (d, deflate_loop) (inl refl)
        | inr ((z', used, output), d) ↦
            let p = laws.deflate_pays z z' buf output ep_bufsize used d in
            let w = write_endpoint_sock_open L (record ep { mccp_out = some z' }) output e in
            let n = lt→ltb 0 (length output) p.2 in
            let whole = take_all (length output) output (omega arith) in
            let flushed : length output == ep_bufsize ≡ false
                → (used ≡ length buf) × (codes.decompress (made ++ output) ≡ given ++ buf) =
              λ part.
                codes.deflate_flushes z z' given made buf output ep_bufsize used c d
                  (λ q. ground (arith, part, q)) in
            rw (d, deflate_loop, w, n)
              (elim (Bool-cases (length output == ep_bufsize)) [
                | inl full ↦ rw full (
                    Returns-weaken
                      (DeliveredOr L codes (given ++ take used buf) (made ++ output) (drop used buf)
                        _)
                      _ _
                      (deflate_loop-Delivers fuel z' (given ++ take used buf) (made ++ output)
                        (drop used buf) (consumed + used) _
                        (codes.deflate_moves z z' given made buf output ep_bufsize used c d)
                        (omega arith) refl)
                      (λ r k. onwards L codes given made buf output used ep.wire.sent r (
                        subst
                          (λ t.
                            DeliveredOr L codes (given ++ take used buf) (made ++ output)
                              (drop used buf) (ep.wire.sent ++ t) r)
                          whole k)))
                | inr part ↦ rw part (
                    inr (record {
                      stream = z';
                      bytes = output;
                      active = refl;
                      coded =
                          subst (λ t. codes.Coded z' t (made ++ output))
                            (ap (λ t. given ++ t)
                              (take_all used buf (omega (arith, (flushed part).0))))
                            (codes.deflate_moves z z' given made buf output ep_bufsize used c d);
                      sent = ap (λ t. ep.wire.sent ++ t) whole;
                      readable = (flushed part).1;
                      open_wire = refl;
                    }))
              ])
      ]

  -- A side whose output stream was given some bytes, with a socket that takes all bytes and with
  -- zlib's promises on `deflate`: a write through `write_endpoint_compressed` fails, or it sends
  -- bytes behind those sent before, such that all that the stream has put out decompresses to all
  -- that it was given and then what was written, and the stream is as ready as before.
  pub write_endpoint_compressed-Delivers :
      (ep : Endpoint L) (z : L.Deflater) (given made buf : List ℕ)
      → ep.mccp_out ≡ some z
      → codes.Coded z given made
      → ep.wire.outgoing ≡ []
      → Returns
          (DeliveredOr L codes given made buf ep.wire.sent)
          (write_endpoint_compressed L ep buf)
  unfolding write_endpoint_compressed
  write_endpoint_compressed-Delivers ep z given made buf active c e =
      rw (active, write_endpoint_compressed)
        (deflate_loop-Delivers (suc (L.deflate_debt z buf)) z given made buf 0 ep c (omega arith) e)
