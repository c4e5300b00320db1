-- ===== src/Proxy/Faults.antt =====
-- Two branches of `muditm_proxy` (proxy.c): an input buffer that is full, and a match whose action has
-- failed behind its pop.
use mudit_m.Base.{
  take-take, sym, take, length, length-take, length-drop, ◌≤◌, ◌+◌, ℕ, ◌-◌, ◌≡◌, refl, ap, ◌∙◌,
  false, none, some, List, ◌∷◌, ◌++◌, arith, drop, take_all,
}
use mudit_m.Libs.{Libs}
use mudit_m.Posix.{Ret, count, ReadEvent, arrived}
use mudit_m.Iobuf.{Iobuf, contents, avail_iobuf, peek_iobuf}
use mudit_m.Iobuf.Bounds.{IsValid, pop_iobuf-IsValid}
use mudit_m.Iobuf.Contents.{contents-pop_iobuf}
use mudit_m.Run.{ok, Returns}
use mudit_m.Conf.{KeyFile}
use mudit_m.Endpoint.{Endpoint, PatternAction}
use mudit_m.Endpoint.Sock.{read_script, read_endpoint_sock}
use mudit_m.Endpoint.Io.{read_endpoint}
use mudit_m.Handlers.{pop_match}
use mudit_m.Handlers.Mccp.{mccp2_do, answer_do, begin_output}
use mudit_m.Handlers.Patterns.{run_action}
use mudit_m.Proxy.{Served, goes_on, ends, after_read, serve, on_match, ship, handle, forward_unless}
use mudit_m.Proxy.Transparent.{IsClear}
use mudit_m.Proxy.Transparent.Match.{write_endpoint_clear}

-- The proxy is left with a result.
abbrev pub EndsWith : (L : Libs) → Ret → Served L → Type 0
EndsWith L ret (goes_on from to) = ⊥
EndsWith L ret (ends ret' from to) = ret' ≡ ret

-- What is behind the head, where there is as much.
peeked :
    (iob : Iobuf) (n : ℕ) → n ≤ length (contents iob) → peek_iobuf iob n ≡ take n (contents iob)
peeked iob n h =
    sym (take-take n iob.tail iob.block (omega (arith, h, length-take iob.tail iob.block)))

minus_zero : (n : ℕ) → n - 0 ≡ n
minus_zero n = omega arith

module _ (L : Libs) (gkf : KeyFile) where
  -- A side without compression has a full input buffer, and its peer has sent more bytes: the
  -- read of no bytes is taken for the peer's end, and the proxy is left with the result 1.
  pub serve_full_ends :
      (from to : Endpoint L) (bytes : List ℕ) (rest : List ReadEvent)
      → from.mccp_in ≡ none
      → avail_iobuf from.iobuf_in ≡ 0
      → from.wire.incoming ≡ arrived bytes ∷ rest
      → Returns (EndsWith L (count 1)) (serve L gkf from to)
  unfolding serve read_endpoint read_endpoint_sock read_script after_read
  serve_full_ends from to bytes rest plain full more = rw (full, plain, more) refl

  mccp2_do_fails :
      (n : ℕ) (from to : Endpoint L)
      → from.mccp_out ≡ none
      → L.deflate_init ≡ none
      → mccp2_do L n from to ≡ ok (false, pop_match L n from, to)
  unfolding mccp2_do
  mccp2_do_fails n from to no_stream unable =
      ap (λ z. answer_do L z (pop_match L n from) to) no_stream
      ∙ ap (λ z. begin_output L z (pop_match L n from) to) unable

  -- `deflateInit` fails for a match of n bytes at the head of a valid input with at least n
  -- further bytes behind it, with no stream yet, and the other side has no compression and an
  -- open socket: the input loses the first n bytes twice, and the other side is sent the n bytes
  -- behind the match in place of the match.
  pub on_match_pops_twice :
      (from to : Endpoint L) (pat : List ℕ) (n : ℕ)
      → IsValid from.iobuf_in
      → IsClear L to
      → from.mccp_out ≡ none
      → L.deflate_init ≡ none
      → n + n ≤ length (contents from.iobuf_in)
      → Returns
          (λ (from', to').
            (contents from'.iobuf_in ≡ drop n (drop n (contents from.iobuf_in)))
            × (to'.wire.sent ≡ to.wire.sent ++ take n (drop n (contents from.iobuf_in))))
          (on_match L gkf
            (some (record { pat = pat; action = some PatternAction.mccp2_do }))
            0
            n
            from
            to)
  unfolding on_match ship handle forward_unless run_action
  on_match_pops_twice from to pat n v c no_stream unable enough =
      let once = contents-pop_iobuf from.iobuf_in n v in
      let popped = pop_match L n from in
      rw
        (
          minus_zero n,
          mccp2_do_fails n from to no_stream unable,
          write_endpoint_clear L to (peek_iobuf popped.iobuf_in n) c,
        )
        (
          contents-pop_iobuf popped.iobuf_in n (pop_iobuf-IsValid from.iobuf_in n v)
              ∙ ap (λ t. drop n t) once,
          ap (λ t. to.wire.sent ++ t)
              (take_all _ _ (omega arith)
                ∙ peeked popped.iobuf_in n
                    (omega (arith, ap length once, length-drop n (contents from.iobuf_in), enough))
                ∙ ap (take n) once),
        )
