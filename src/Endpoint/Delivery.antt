-- ===== src/Endpoint/Delivery.antt =====
-- What reaches the peer: the writes of proxy.c on a socket, and `flush_endpoint`.
use mudit_m.Base.{
  ℕ, zero, suc, ◌≤◌, ◌≡◌, refl, ap, ◌∙◌, Bool, true, false, none, List, [], ◌∷◌, ◌++◌, arith,
  take-append-drop,
}
use mathlib.Core.List.{append_assoc}
use mudit_m.Libs.{Libs}
use mudit_m.Posix.{Ret, count, failed, WriteEvent, accept, blocked, refused}
use mudit_m.Iobuf.{Iobuf, contents, len_iobuf}
use mudit_m.Iobuf.Bounds.{IsValid, pop_iobuf-IsValid}
use mudit_m.Iobuf.Contents.{contents-pop_iobuf}
use mudit_m.Run.{ok, Returns}
use mudit_m.Endpoint.{Endpoint}
use mudit_m.Endpoint.Sock.{write_script, write_endpoint_sock, written}
use mudit_m.Endpoint.Io.{write_endpoint, flush_endpoint, unsent}

-- A write reports no more than it was given.
pub write_script_bound :
    (ssl : Bool) (script : List WriteEvent) (n m : ℕ)
    → (write_script ssl script n).0 ≡ count m
    → m ≤ n
unfolding write_script
write_script_bound ssl [] n m e = ground arith
write_script_bound ssl (accept k ∷ rest) n m e = ground arith
write_script_bound true (blocked ∷ rest) n m e = write_script_bound true rest n m e
write_script_bound false (blocked ∷ rest) n m e = cc
write_script_bound ssl (refused ∷ rest) n m e = cc

pub unsent-IsValid : (ret : Ret) (iob : Iobuf) → IsValid iob → IsValid (unsent ret iob)
unsent-IsValid (count zero) iob v = v
unsent-IsValid (count (suc n)) iob v = pop_iobuf-IsValid iob (suc n) v
unsent-IsValid (failed e) iob v = v

-- What was written and what is kept make up what was there.
written-append-unsent :
    (ret : Ret) (iob : Iobuf)
    → IsValid iob
    → written ret (contents iob) ++ contents (unsent ret iob) ≡ contents iob
written-append-unsent (count zero) iob v = refl
written-append-unsent (count (suc n)) iob v =
    rw (contents-pop_iobuf iob (suc n) v) (take-append-drop (suc n) (contents iob))
written-append-unsent (failed e) iob v = refl

module _ (L : Libs) where
  -- What was sent and what waits in the output buffer, in order.
  abbrev pub outbound : Endpoint L → List ℕ
  outbound ep = ep.wire.sent ++ contents ep.iobuf_out

  pub write_endpoint_plain :
      (ep : Endpoint L) (buf : List ℕ)
      → ep.mccp_out ≡ none
      → write_endpoint L ep buf ≡ ok (write_endpoint_sock L ep buf)
  unfolding write_endpoint
  write_endpoint_plain ep buf plain = rw plain

  -- Without compression a flush of a valid output buffer, whatever the socket takes of it, loses
  -- and repeats nothing: the bytes sent followed by the bytes that wait are what they were, and
  -- the buffer stays valid.
  pub outbound-flush_endpoint :
      (ep : Endpoint L)
      → IsValid ep.iobuf_out
      → ep.mccp_out ≡ none
      → Returns (λ r. (outbound r.1 ≡ outbound ep) × IsValid r.1.iobuf_out) (flush_endpoint L ep)
  unfolding flush_endpoint write_endpoint_sock len_iobuf
  outbound-flush_endpoint ep v plain = rw (write_endpoint_plain ep (contents ep.iobuf_out) plain) (
    append_assoc ep.wire.sent _ _ ∙ ap (λ t. ep.wire.sent ++ t) (written-append-unsent _ _ v),
    unsent-IsValid _ _ v,
  )
