-- ===== src/Handlers/Answers.antt =====
-- What the two ways to send of handlers.c, mccp.c and proxy.c say to a side without compression.
use mudit_m.Base.{ℕ, ◌≤◌, ◌<◌, ◌≡◌, sym, ap, ◌∙◌, none, List, ◌++◌, length}
use mathlib.Core.List.{append_assoc}
use mudit_m.Libs.{Libs}
use mudit_m.Posix.{Ret}
use mudit_m.Iobuf.{Iobuf, contents, print_iobuf, avail_iobuf}
use mudit_m.Iobuf.Bounds.{IsValid, append_iobuf-IsValid, print_iobuf-IsValid}
use mudit_m.Iobuf.Contents.{append_iobuf_fits, contents-print_iobuf}
use mudit_m.Run.{Returns, Returns-bind, Returns-both, Returns-weaken}
use mudit_m.Endpoint.{Endpoint}
use mudit_m.Endpoint.Io.{flush_endpoint}
use mudit_m.Endpoint.Sock.{write_endpoint_sock}
use mudit_m.Endpoint.Delivery.{outbound, outbound-flush_endpoint, write_endpoint_plain}
use mudit_m.Endpoint.Frame.{Kept, Kept-refl, Kept-trans, Kept-to_out, write_endpoint_sock-Kept}
use mudit_m.Handlers.{print_out, send_out}

-- A side has been told `text`, and nothing else of it that counts has changed.
pub record Says (L : Libs) (text : List ℕ) (ep ep' : Endpoint L) : Type 0 where
  pub said : outbound L ep' ≡ outbound L ep ++ text
  pub kept : Kept L ep ep'
  pub out_valid : IsValid ep'.iobuf_out
  pub still_plain : ep'.mccp_out ≡ none

module _ (L : Libs) where
  flush_plain :
      (ep : Endpoint L)
      → ep.mccp_out ≡ none
      → Returns (λ r. Kept L ep r.1 × (r.1.mccp_out ≡ none)) (flush_endpoint L ep)
  unfolding flush_endpoint write_endpoint_sock
  flush_plain ep plain =
      rw (write_endpoint_plain L ep _ plain)
        (Kept-to_out L ep _ _ (write_endpoint_sock-Kept L ep _), plain)

  -- A flush of an output buffer to which `text` was added.
  pub spoken :
      (ep : Endpoint L) (out : Iobuf) (text : List ℕ)
      → IsValid out
      → ep.mccp_out ≡ none
      → contents out ≡ contents ep.iobuf_out ++ text
      → Returns
          (λ (r : Ret × Endpoint L). Says L text ep r.1)
          (flush_endpoint L (record ep { iobuf_out = out }))
  spoken ep out text v plain e =
      let ep0 = record ep { iobuf_out = out } in
      Returns-weaken _ _ (flush_endpoint L ep0)
        (Returns-both _ _ (flush_endpoint L ep0) (outbound-flush_endpoint L ep0 v plain)
          (flush_plain ep0 plain))
        (λ r k. record {
          said =
              k.0.0
              ∙ (ap (λ t. ep.wire.sent ++ t) e
                  ∙ sym (append_assoc ep.wire.sent (contents ep.iobuf_out) text));
          kept = Kept-trans L ep ep0 r.1 (Kept-to_out L ep ep out (Kept-refl L ep)) k.1.0;
          out_valid = k.0.1;
          still_plain = k.1.1;
        })

  pub print_out-Says :
      (ep : Endpoint L) (text : List ℕ)
      → IsValid ep.iobuf_out
      → ep.mccp_out ≡ none
      → length text < avail_iobuf ep.iobuf_out
      → Returns
          (λ (r : Ret × Endpoint L). Says L text ep r.1)
          (flush_endpoint L (print_out L text ep))
  print_out-Says ep text v plain fits =
      spoken ep (print_iobuf ep.iobuf_out text) text (print_iobuf-IsValid ep.iobuf_out text v) plain
        (contents-print_iobuf ep.iobuf_out text v fits)

  pub send_out-Says :
      (ep : Endpoint L) (message : List ℕ)
      → IsValid ep.iobuf_out
      → ep.mccp_out ≡ none
      → length message ≤ avail_iobuf ep.iobuf_out
      → Returns (Says L message ep) (send_out L message ep)
  send_out-Says ep message v plain fits =
      let (out, e, c) = append_iobuf_fits ep.iobuf_out message v fits in
      rw e (
        Returns-bind (λ (r : Ret × Endpoint L). Says L message ep r.1) _
          (flush_endpoint L (record ep { iobuf_out = out })) _
          (spoken ep out message (append_iobuf-IsValid ep.iobuf_out message v e) plain c)
          (λ r k. k))
