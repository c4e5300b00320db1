-- ===== src/Endpoint/Frame.antt =====
-- The writes of proxy.c and mccp.c: which fields of an endpoint they touch.
use mudit_m.Base.{
  ℕ, zero, suc, ◌+◌, ◌<◌, ◌≡◌, refl, sym, ◌∙◌, Option, some, List, length, drop, arith, Bool-cases,
  Option-cases, inl, inr, ◌==◌,
}
use mathlib.Core.Path.{subst}
use mudit_m.Libs.{Libs, DeflateLaws}
use mudit_m.Iostats.{IostatData}
use mudit_m.Iobuf.{Iobuf}
use mudit_m.Iobuf.Bounds.{IsValid}
use mudit_m.Run.{Returns, Returns-bind, Returns-weaken}
use mudit_m.Endpoint.{Endpoint, ep_bufsize}
use mudit_m.Endpoint.Sock.{write_endpoint_sock}
use mudit_m.Endpoint.Reads.{Answers}
use mudit_m.Endpoint.Stream.{deflate_loop, write_endpoint_compressed, is_positive}
use mudit_m.Endpoint.Io.{write_endpoint, flush_endpoint, unsent}
use mudit_m.Endpoint.Delivery.{unsent-IsValid, write_endpoint_plain}

-- The fields that no output operation changes.
pub record Kept (L : Libs) (ep ep' : Endpoint L) : Type 0 where
  pub same_in : ep'.iobuf_in ≡ ep.iobuf_in
  pub same_re : ep'.re ≡ ep.re
  pub same_patterns : ep'.patterns ≡ ep.patterns
  pub same_matching : ep'.matching_enabled ≡ ep.matching_enabled
  pub same_mnes : ep'.mnes_state ≡ ep.mnes_state
  pub same_mode : ep'.mccp_mode ≡ ep.mccp_mode
  pub same_nego : ep'.mccp_nego ≡ ep.mccp_nego
  pub same_mccp_in : ep'.mccp_in ≡ ep.mccp_in
  pub same_ssl : ep'.ssl ≡ ep.ssl
  pub same_incoming : ep'.wire.incoming ≡ ep.wire.incoming

module _ (L : Libs) where
  abbrev pub Frame : Endpoint L → Endpoint L → Type 0
  Frame ep ep' = Kept L ep ep' × (ep'.iobuf_out ≡ ep.iobuf_out)

  pub Kept-refl : (ep : Endpoint L) → Kept L ep ep
  Kept-refl ep = record {
    same_in = refl;
    same_re = refl;
    same_patterns = refl;
    same_matching = refl;
    same_mnes = refl;
    same_mode = refl;
    same_nego = refl;
    same_mccp_in = refl;
    same_ssl = refl;
    same_incoming = refl;
  }

  pub Kept-trans : (a b c : Endpoint L) → Kept L a b → Kept L b c → Kept L a c
  Kept-trans a b c p q = record {
    same_in = q.same_in ∙ p.same_in;
    same_re = q.same_re ∙ p.same_re;
    same_patterns = q.same_patterns ∙ p.same_patterns;
    same_matching = q.same_matching ∙ p.same_matching;
    same_mnes = q.same_mnes ∙ p.same_mnes;
    same_mode = q.same_mode ∙ p.same_mode;
    same_nego = q.same_nego ∙ p.same_nego;
    same_mccp_in = q.same_mccp_in ∙ p.same_mccp_in;
    same_ssl = q.same_ssl ∙ p.same_ssl;
    same_incoming = q.same_incoming ∙ p.same_incoming;
  }

  pub Kept-Answers : (ep ep' : Endpoint L) → Kept L ep ep' → Answers L ep → Answers L ep'
  Kept-Answers ep ep' k a = rw (k.same_ssl, k.same_incoming) a

  -- The stream and the counters are not among the fields kept.
  Kept-from_stream :
      (ep e : Endpoint L) (m : Option L.Deflater)
      → Kept L (record ep { mccp_out = m }) e
      → Kept L ep e
  Kept-from_stream ep e m k = record {
    same_in = k.same_in;
    same_re = k.same_re;
    same_patterns = k.same_patterns;
    same_matching = k.same_matching;
    same_mnes = k.same_mnes;
    same_mode = k.same_mode;
    same_nego = k.same_nego;
    same_mccp_in = k.same_mccp_in;
    same_ssl = k.same_ssl;
    same_incoming = k.same_incoming;
  }

  Kept-to_stats :
      (ep e : Endpoint L) (s : IostatData) → Kept L ep e → Kept L ep (record e { mccpstats = s })
  Kept-to_stats ep e s k = record {
    same_in = k.same_in;
    same_re = k.same_re;
    same_patterns = k.same_patterns;
    same_matching = k.same_matching;
    same_mnes = k.same_mnes;
    same_mode = k.same_mode;
    same_nego = k.same_nego;
    same_mccp_in = k.same_mccp_in;
    same_ssl = k.same_ssl;
    same_incoming = k.same_incoming;
  }

  pub Kept-to_out :
      (ep e : Endpoint L) (out : Iobuf) → Kept L ep e → Kept L ep (record e { iobuf_out = out })
  Kept-to_out ep e out k = record {
    same_in = k.same_in;
    same_re = k.same_re;
    same_patterns = k.same_patterns;
    same_matching = k.same_matching;
    same_mnes = k.same_mnes;
    same_mode = k.same_mode;
    same_nego = k.same_nego;
    same_mccp_in = k.same_mccp_in;
    same_ssl = k.same_ssl;
    same_incoming = k.same_incoming;
  }

  pub write_endpoint_sock-Kept :
      (ep : Endpoint L) (buf : List ℕ) → Kept L ep (write_endpoint_sock L ep buf).1
  unfolding write_endpoint_sock
  write_endpoint_sock-Kept ep buf = record {
    same_in = refl;
    same_re = refl;
    same_patterns = refl;
    same_matching = refl;
    same_mnes = refl;
    same_mode = refl;
    same_nego = refl;
    same_mccp_in = refl;
    same_ssl = refl;
    same_incoming = refl;
  }

  pub write_endpoint_sock_out :
      (ep : Endpoint L) (buf : List ℕ) → (write_endpoint_sock L ep buf).1.iobuf_out ≡ ep.iobuf_out
  unfolding write_endpoint_sock
  write_endpoint_sock_out ep buf = refl

  write_endpoint_active :
      (ep : Endpoint L) (z : L.Deflater) (buf : List ℕ)
      → ep.mccp_out ≡ some z
      → write_endpoint L ep buf ≡ deflate_loop L (suc (L.deflate_debt z buf)) z buf 0 ep
  unfolding write_endpoint write_endpoint_compressed
  write_endpoint_active ep z buf active = simp (active, write_endpoint, write_endpoint_compressed)

module _ (L : Libs) (laws : DeflateLaws L) where
  deflate_loop-Frame :
      (fuel : ℕ) (z : L.Deflater) (buf : List ℕ) (consumed : ℕ) (ep : Endpoint L)
      → L.deflate_debt z buf < fuel
      → Returns (λ r. Frame L ep r.1) (deflate_loop L fuel z buf consumed ep)
  unfolding deflate_loop
  deflate_loop-Frame zero z buf consumed ep h = absurd (omega arith)
  deflate_loop-Frame (suc fuel) z buf consumed ep h =
      elim (Option-cases (L.deflate z buf ep_bufsize)) [
        | inl d ↦ rw (d, deflate_loop) (Kept-refl L ep, refl)
        | inr ((z', used, output), d) ↦
            let p = laws.deflate_pays z z' buf output ep_bufsize used d in
            let r = write_endpoint_sock L (record ep { mccp_out = some z' }) output in
            let kept : Kept L ep r.1 =
              Kept-from_stream L ep r.1 (some z')
                (write_endpoint_sock-Kept L (record ep { mccp_out = some z' }) output) in
            let out = write_endpoint_sock_out L (record ep { mccp_out = some z' }) output in
            rw (d, deflate_loop)
              (elim (Bool-cases (is_positive r.0)) [
                | inl sent ↦ rw sent (elim (Bool-cases (length output == ep_bufsize)) [
                  | inl full ↦ rw full (
                      Returns-weaken (λ q. Frame L r.1 q.1) _
                        (deflate_loop L fuel z' (drop used buf) (consumed + used) r.1)
                        (deflate_loop-Frame fuel z' (drop used buf) (consumed + used) r.1
                          (omega arith))
                        (λ q k. (Kept-trans L ep r.1 q.1 kept k.0, k.1 ∙ out)))
                  | inr part ↦ rw part (Kept-to_stats L ep r.1 _ kept, out)
                ])
                | inr unsent_block ↦ rw unsent_block (elim (Bool-cases (consumed == 0)) [
                  | inl first ↦ rw first (kept, out)
                  | inr later ↦ rw later (Kept-to_stats L ep r.1 _ kept, out)
                ])
              ])
      ]

  -- A write returns, whatever the socket answers, and touches only the wire, the counters and the
  -- output stream.
  pub write_endpoint-Frame :
      (ep : Endpoint L) (buf : List ℕ) → Returns (λ r. Frame L ep r.1) (write_endpoint L ep buf)
  write_endpoint-Frame ep buf = elim (Option-cases ep.mccp_out) [
    | inl plain ↦
        rw (write_endpoint_plain L ep buf plain)
          (write_endpoint_sock-Kept L ep buf, write_endpoint_sock_out L ep buf)
    | inr (z, active) ↦
        rw (write_endpoint_active L ep z buf active)
          (deflate_loop-Frame (suc (L.deflate_debt z buf)) z buf 0 ep (omega arith))
  ]

  pub flush_endpoint-Kept :
      (ep : Endpoint L)
      → IsValid ep.iobuf_out
      → Returns (λ r. Kept L ep r.1 × IsValid r.1.iobuf_out) (flush_endpoint L ep)
  unfolding flush_endpoint
  flush_endpoint-Kept ep v =
      Returns-bind (λ r. Frame L ep r.1) _ (write_endpoint L ep _) _ (write_endpoint-Frame ep _)
        (λ r k. (
          Kept-to_out L ep r.1 (unsent r.0 r.1.iobuf_out) k.0,
          unsent-IsValid r.0 r.1.iobuf_out (subst IsValid (sym k.1) v),
        ))
