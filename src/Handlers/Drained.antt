-- ===== src/Handlers/Drained.antt =====
-- Sides of the proxy with no compression on the way out and a socket that takes all bytes: what a
-- flush of handlers.c's messages leaves in the output buffer.
use mudit_m.Base.{
  ℕ, zero, suc, ◌≤◌, ◌≡◌, refl, sym, ap, ◌∙◌, Option, none, some, List, [], ◌∷◌, length, arith,
  length-store, Bool-cases, inl, inr, leb,
}
use mathlib.Core.Path.{subst}
use mudit_m.Libs.{Libs}
use mudit_m.Posix.{Ret, count}
use mudit_m.Iobuf.{Iobuf, pop_iobuf, append_iobuf, print_iobuf, contents, len_iobuf}
use mudit_m.Iobuf.Bounds.{
  length-pop_iobuf, IsValid, append_iobuf-IsValid, print_iobuf-IsValid, avail_iobuf_lem,
  tail-pop_iobuf, pop_iobuf-IsValid,
}
use mudit_m.Iobuf.Contents.{append_iobuf_fits, length-contents}
use mudit_m.Run.{ok, Returns, Returns-bind}
use mudit_m.Endpoint.{Endpoint, Pattern, PatternAction}
use mudit_m.Endpoint.Io.{flush_endpoint, write_endpoint, unsent}
use mudit_m.Endpoint.Delivery.{write_endpoint_plain}
use mudit_m.Endpoint.Compressed.{sent_all, write_endpoint_sock_open}
use mudit_m.Handlers.{print_out, send_out, pop_match}

-- An action that starts no compression of what is sent.
abbrev pub IsTame : Option PatternAction → Type 0
IsTame (some PatternAction.mccp2_do) = ⊥
IsTame _ = Unit

abbrev pub AllTame : List Pattern → Type 0
AllTame [] = Unit
AllTame (p ∷ patterns) = IsTame p.action × AllTame patterns

-- Whatever is written to this side goes out whole.
pub record IsFlowing (L : Libs) (ep : Endpoint L) : Type 0 where
  pub in_room : 3 ≤ length ep.iobuf_in.block
  pub out_valid : IsValid ep.iobuf_out
  pub out_room : 5 ≤ ep.iobuf_out.length
  pub plain : ep.mccp_out ≡ none
  pub open_wire : ep.wire.outgoing ≡ []
  pub tame : AllTame ep.patterns

-- And nothing is left to be written.
pub record IsDrained (L : Libs) (ep : Endpoint L) : Type 0 where
  pub flowing : IsFlowing L ep
  pub empty : ep.iobuf_out.tail ≡ 0

length-append_iobuf :
    (iob : Iobuf) (bytes : List ℕ) {out : Iobuf}
    → append_iobuf iob bytes ≡ some out
    → out.length ≡ iob.length
unfolding append_iobuf
length-append_iobuf iob bytes e = ground arith

length-print_iobuf : (iob : Iobuf) (text : List ℕ) → (print_iobuf iob text).length ≡ iob.length
unfolding print_iobuf
length-print_iobuf iob text = ground arith

length-block-pop_iobuf : (iob : Iobuf) (n : ℕ) → length (pop_iobuf iob n).block ≡ length iob.block
unfolding pop_iobuf
length-block-pop_iobuf iob n = elim (Bool-cases (leb iob.tail n)) [
  | inl all ↦ rw all refl
  | inr part ↦ rw part (length-store iob.block 0 _)
]

module _ (L : Libs) where
  pub touched_flowing :
      (ep ep' : Endpoint L)
      → IsFlowing L ep
      → length ep'.iobuf_in.block ≡ length ep.iobuf_in.block
      → ep'.iobuf_out ≡ ep.iobuf_out
      → ep'.mccp_out ≡ ep.mccp_out
      → ep'.wire.outgoing ≡ ep.wire.outgoing
      → ep'.patterns ≡ ep.patterns
      → IsFlowing L ep'
  touched_flowing ep ep' f i o m w p = record {
    in_room = omega (arith, f.in_room);
    out_valid = subst IsValid (sym o) f.out_valid;
    out_room = subst (λ (b : Iobuf). 5 ≤ b.length) (sym o) f.out_room;
    plain = m ∙ f.plain;
    open_wire = w ∙ f.open_wire;
    tame = subst AllTame (sym p) f.tame;
  }

  pub touched_drained :
      (ep ep' : Endpoint L)
      → IsDrained L ep
      → length ep'.iobuf_in.block ≡ length ep.iobuf_in.block
      → ep'.iobuf_out ≡ ep.iobuf_out
      → ep'.mccp_out ≡ ep.mccp_out
      → ep'.wire.outgoing ≡ ep.wire.outgoing
      → ep'.patterns ≡ ep.patterns
      → IsDrained L ep'
  touched_drained ep ep' d i o m w p = record {
    flowing = touched_flowing ep ep' d.flowing i o m w p;
    empty = ap (λ (b : Iobuf). b.tail) o ∙ d.empty;
  }

  pub filled :
      (ep : Endpoint L) (out : Iobuf)
      → IsFlowing L ep
      → IsValid out
      → out.length ≡ ep.iobuf_out.length
      → IsFlowing L (record ep { iobuf_out = out })
  filled ep out f v e = record {
    in_room = f.in_room;
    out_valid = v;
    out_room = omega (arith, f.out_room);
    plain = f.plain;
    open_wire = f.open_wire;
    tame = f.tame;
  }

  pub print_out-IsFlowing :
      (text : List ℕ) (ep : Endpoint L) → IsFlowing L ep → IsFlowing L (print_out L text ep)
  print_out-IsFlowing text ep f =
      filled ep (print_iobuf ep.iobuf_out text) f
        (print_iobuf-IsValid ep.iobuf_out text f.out_valid) (length-print_iobuf ep.iobuf_out text)

  unsent_all :
      (iob : Iobuf) (n : ℕ)
      → IsValid iob
      → n ≡ iob.tail
      → IsValid (unsent (count n) iob)
        × ((unsent (count n) iob).tail ≡ 0)
        × ((unsent (count n) iob).length ≡ iob.length)
  unsent_all iob zero v e = (v, sym e, refl)
  unsent_all iob (suc n) v e = (
    pop_iobuf-IsValid iob (suc n) v,
    omega (arith, tail-pop_iobuf iob (suc n)),
    length-pop_iobuf iob (suc n),
  )

  -- A flush sends all, and keeps the input and the patterns.
  pub flush_endpoint-IsDrained :
      (ep : Endpoint L)
      → IsFlowing L ep
      → Returns
          (λ (r : Ret × Endpoint L). IsDrained L r.1 × (r.1.iobuf_in ≡ ep.iobuf_in))
          (flush_endpoint L ep)
  unfolding flush_endpoint len_iobuf
  flush_endpoint-IsDrained ep f =
      let buf = contents ep.iobuf_out in
      let u =
        unsent_all ep.iobuf_out (length buf) f.out_valid
          (length-contents ep.iobuf_out f.out_valid) in
      rw (write_endpoint_plain L ep buf f.plain, write_endpoint_sock_open L ep buf f.open_wire)
        (
          record {
            flowing = record {
              in_room = f.in_room;
              out_valid = u.0;
              out_room = omega (arith, f.out_room, u.2);
              plain = f.plain;
              open_wire = refl;
              tame = f.tame;
            };
            empty = u.1;
          },
          refl,
        )

  -- A message finds room in the empty buffer.
  pub send_out-IsDrained :
      (message : List ℕ) (ep : Endpoint L)
      → length message ≤ 5
      → IsDrained L ep
      → Returns (λ ep'. IsDrained L ep' × (ep'.iobuf_in ≡ ep.iobuf_in)) (send_out L message ep)
  send_out-IsDrained message ep short d =
      let f = d.flowing in
      let (out, e, c) =
        append_iobuf_fits ep.iobuf_out message f.out_valid
          (omega (arith, short, f.out_room, d.empty, avail_iobuf_lem ep.iobuf_out f.out_valid)) in
      rw e (
        Returns-bind (λ (r : Ret × Endpoint L). IsDrained L r.1 × (r.1.iobuf_in ≡ ep.iobuf_in)) _
          (flush_endpoint L (record ep { iobuf_out = out })) _
          (flush_endpoint-IsDrained (record ep { iobuf_out = out })
            (filled ep out f (append_iobuf-IsValid ep.iobuf_out message f.out_valid e)
              (length-append_iobuf ep.iobuf_out message e)))
          (λ r k. k))

  pub pop_match-IsDrained :
      (n : ℕ) (ep : Endpoint L) → IsDrained L ep → IsDrained L (pop_match L n ep)
  pop_match-IsDrained n ep d =
      touched_drained ep (pop_match L n ep) d (length-block-pop_iobuf ep.iobuf_in n) refl refl refl
        refl

  -- A plain write to a side of this kind, behind all that was sent.
  pub write_endpoint_drained :
      (ep : Endpoint L) (buf : List ℕ)
      → IsDrained L ep
      → (write_endpoint L ep buf ≡ ok (count (length buf), sent_all L buf ep))
        × IsDrained L (sent_all L buf ep)
  write_endpoint_drained ep buf d = (
    write_endpoint_plain L ep buf d.flowing.plain
        ∙ ap ok (write_endpoint_sock_open L ep buf d.flowing.open_wire),
    touched_drained ep (sent_all L buf ep) d refl refl refl (sym d.flowing.open_wire) refl,
  )
