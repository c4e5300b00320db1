-- ===== src/Endpoint/Compressed.antt =====
-- `write_endpoint_compressed` of mccp.c, and the flush behind it, on a socket that accepts all.
use mudit_m.Base.{
  ℕ, zero, suc, ◌+◌, ◌<◌, ◌≡◌, refl, ◌∙◌, some, List, [], ◌++◌, length, take, drop, arith, lt→ltb,
  Bool-cases, Option-cases, inl, inr, ◌⊎◌, ◌==◌,
}
use mudit_m.Libs.{Libs, DeflateLaws}
use mudit_m.Posix.{Ret, count, failed, other_errno}
use mudit_m.Iobuf.{Iobuf, contents, len_iobuf}
use mudit_m.Iostats.{iostat_incr}
use mudit_m.Run.{Returns, Returns-bind}
use mudit_m.Endpoint.{Endpoint, ep_bufsize}
use mudit_m.Endpoint.Sock.{write_script, write_endpoint_sock}
use mudit_m.Endpoint.Stream.{deflate_loop, write_endpoint_compressed}
use mudit_m.Endpoint.Io.{write_endpoint, flush_endpoint, unsent}

-- -1 or 0: what `flush_endpoint` takes for "nothing was sent".
abbrev pub IsNone : Ret → Type 0
IsNone ret = (ret ≡ count 0) ⊎ (ret ≡ failed other_errno)

unsent_none : (ret : Ret) (iob : Iobuf) → IsNone ret → unsent ret iob ≡ iob
unsent_none ret iob (inl e) = rw e
unsent_none ret iob (inr e) = rw e

module _ (L : Libs) where
  -- The endpoint after a write that the socket took whole.
  abbrev pub sent_all : List ℕ → Endpoint L → Endpoint L
  sent_all buf ep = record ep {
    sockstats = iostat_incr ep.sockstats (count 0) (count (length buf));
    wire = record (ep.wire) { outgoing = []; sent = ep.wire.sent ++ take (length buf) buf };
  }

  pub write_endpoint_sock_open :
      (ep : Endpoint L) (buf : List ℕ)
      → ep.wire.outgoing ≡ []
      → write_endpoint_sock L ep buf ≡ (count (length buf), sent_all buf ep)
  unfolding write_endpoint_sock write_script
  write_endpoint_sock_open ep buf e = rw e

module _ (L : Libs) (laws : DeflateLaws L) where
  deflate_loop_open :
      (fuel : ℕ) (z : L.Deflater) (buf : List ℕ) (consumed : ℕ) (ep : Endpoint L)
      → L.deflate_debt z buf < fuel
      → ep.wire.outgoing ≡ []
      → Returns
          (λ r. IsNone r.0 × (r.1.iobuf_out ≡ ep.iobuf_out))
          (deflate_loop L fuel z buf consumed ep)
  unfolding deflate_loop
  deflate_loop_open zero z buf consumed ep h e = absurd (omega arith)
  deflate_loop_open (suc fuel) z buf consumed ep h e =
      elim (Option-cases (L.deflate z buf ep_bufsize)) [
        | inl d ↦ rw (d, deflate_loop) (inr refl, refl)
        | inr ((z', used, output), d) ↦
            let p = laws.deflate_pays z z' buf output ep_bufsize used d in
            let w = write_endpoint_sock_open L (record ep { mccp_out = some z' }) output e in
            let n = lt→ltb 0 (length output) p.2 in
            rw (d, deflate_loop, w, n)
              (elim (Bool-cases (length output == ep_bufsize)) [
                | inl full ↦ rw full (
                    deflate_loop_open fuel z' (drop used buf) (consumed + used) _ (omega arith)
                      refl)
                | inr part ↦ rw part (inl refl, refl)
              ])
      ]

  -- With a deflate stream that keeps zlib's promises and a socket that takes all bytes,
  -- `write_endpoint_compressed` returns 0 or -1, never the number of the bytes that it consumed,
  -- and leaves the output buffer alone.
  pub write_endpoint_compressed_open :
      (ep : Endpoint L) (z : L.Deflater) (buf : List ℕ)
      → ep.mccp_out ≡ some z
      → ep.wire.outgoing ≡ []
      → Returns
          (λ r. IsNone r.0 × (r.1.iobuf_out ≡ ep.iobuf_out))
          (write_endpoint_compressed L ep buf)
  unfolding write_endpoint_compressed
  write_endpoint_compressed_open ep z buf active e =
      rw (active, write_endpoint_compressed)
        (deflate_loop_open (suc (L.deflate_debt z buf)) z buf 0 ep (omega arith) e)

  -- With a deflate stream that keeps zlib's promises and a socket that takes all bytes, a flush
  -- returns and leaves in the output buffer all that was in it.
  pub flush_endpoint_keeps :
      (ep : Endpoint L) (z : L.Deflater)
      → ep.mccp_out ≡ some z
      → ep.wire.outgoing ≡ []
      → Returns (λ r. r.1.iobuf_out ≡ ep.iobuf_out) (flush_endpoint L ep)
  unfolding flush_endpoint len_iobuf write_endpoint
  flush_endpoint_keeps ep z active e =
      Returns-bind (λ r. IsNone r.0 × (r.1.iobuf_out ≡ ep.iobuf_out)) _
        (write_endpoint L ep (contents ep.iobuf_out)) _
        (rw (active, write_endpoint) (write_endpoint_compressed_open ep z _ active e))
        (λ r p. unsent_none r.0 r.1.iobuf_out p.0 ∙ p.1)
