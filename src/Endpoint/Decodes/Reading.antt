-- ===== src/Endpoint/Decodes/Reading.antt =====
-- `read_endpoint_compressed` of mccp.c, and what it makes of the bytes that a peer sends.
use mudit_m.Base.{
  ℕ, ◌≤◌, zero, suc, ◌≡◌, refl, sym, ap, ◌∙◌, true, false, some, List, [], ◌∷◌, ◌++◌, length, arith,
  Bool-cases, inl, inr, if◌then◌else◌,
}
use mathlib.Core.Path.{subst}
use mathlib.Core.List.{append_assoc}
use mudit_m.Libs.{Libs, InflateLaws}
use mudit_m.Posix.{Ret, count, failed}
use mudit_m.Run.{
  Fits, Fits-bind, Returns-Fits, Returns, Returns-weaken, Returns-Bounded, Bounded-Fits,
}
use mudit_m.Endpoint.{Endpoint, InStream, ep_bufsize}
use mudit_m.Endpoint.Sock.{read_endpoint_sock}
use mudit_m.Endpoint.Stream.{
  Refill, input, stop, is_positive, refill, after_inflate, after_refill, inflate_loop,
}
use mudit_m.Endpoint.Reads.{Answers, Counts}
use mudit_m.Endpoint.Io.{read_endpoint}
use mudit_m.Endpoint.Inflates.{Yields, read_endpoint-Yields, read_endpoint_compressed_eq}
use mudit_m.Endpoint.Arrivals.{to_come, Fetched, FetchedBy, read_endpoint_sock-Fetched}
use mudit_m.Endpoint.Decodes.{InflateCodes, Inflow, InflowOf, nothing, after_inflate-Inflow}

module _ (L : Libs) (codes : InflateCodes L) where
  -- What `inflate` is given, and what is still to come behind it.
  abbrev Refilled : (source : List ℕ) → Refill × Endpoint L → Type 0
  Refilled source (input bytes, ep) = (bytes ++ to_come ep.wire.incoming ≡ source) × Answers L ep
  Refilled source (stop readsize, ep) = (to_come ep.wire.incoming ≡ source) × Answers L ep

  -- A read that is not positive has brought no bytes.
  none_read : (ret : Ret) (bytes : List ℕ) → Counts ret bytes → is_positive ret ≡ false → bytes ≡ []
  none_read (failed e) bytes c p = c
  none_read (count n) [] c p = refl
  none_read (count n) (b ∷ bytes) c p = absurd (ground (arith, c, p))

  chosen :
      (ep ep1 : Endpoint L) (ret : Ret) (bytes : List ℕ)
      → Answers L ep
      → Fetched L ep_bufsize ep ret bytes ep1
      → Refilled (to_come ep.wire.incoming) (if is_positive ret then input bytes else stop ret, ep1)
  chosen ep ep1 ret bytes live f = elim (Bool-cases (is_positive ret)) [
    | inl some_read ↦ rw some_read (f.conveyed, f.frame.answers live)
    | inr not_read ↦ rw not_read (
      ap (λ t. t ++ to_come ep1.wire.incoming) (sym (none_read ret bytes f.frame.counts not_read))
          ∙ f.conveyed,
      f.frame.answers live,
    )
  ]

  refill-Refilled :
      (waiting : List ℕ) (ep : Endpoint L)
      → Answers L ep
      → Fits (Refilled (waiting ++ to_come ep.wire.incoming)) (refill L ep waiting)
  unfolding refill
  refill-Refilled [] ep live =
      Fits-bind (FetchedBy L ep_bufsize ep) _ (read_endpoint_sock L ep ep_bufsize) _
        (Returns-Fits (FetchedBy L ep_bufsize ep) (read_endpoint_sock L ep ep_bufsize)
          (read_endpoint_sock-Fetched L ep ep_bufsize live))
        (λ (ret, bytes, ep1) f. chosen ep ep1 ret bytes live f)
  refill-Refilled (b ∷ waiting) ep live = (refl, live)

  inflate_loop-Inflow :
      (fuel : ℕ) (z : L.Inflater) (consumed produced waiting : List ℕ) (n : ℕ) (ep : Endpoint L)
      → codes.Decoding z consumed produced
      → Answers L ep
      → Fits
          (InflowOf L codes consumed produced (waiting ++ to_come ep.wire.incoming))
          (inflate_loop L fuel z waiting n ep)
  unfolding inflate_loop after_refill
  inflate_loop-Inflow zero z consumed produced waiting n ep d live = tt
  inflate_loop-Inflow (suc fuel) z consumed produced waiting n ep d live =
      Fits-bind (Refilled (waiting ++ to_come ep.wire.incoming)) _ (refill L ep waiting) _
        (refill-Refilled waiting ep live)
        (λ (r, ep1) k. inflating r ep1 k (λ z' c' p' bytes' d'.
          inflate_loop-Inflow fuel z' c' p' bytes' n ep1 d' (answering r ep1 k)))
    where
      answering :
          (r : Refill) (ep1 : Endpoint L)
          → Refilled (waiting ++ to_come ep.wire.incoming) (r, ep1)
          → Answers L ep1
      answering (input bytes) ep1 k = k.1
      answering (stop readsize) ep1 k = k.1

      inflating :
          (r : Refill) (ep1 : Endpoint L)
          → Refilled (waiting ++ to_come ep.wire.incoming) (r, ep1)
          → ((z' : L.Inflater) (consumed' produced' bytes' : List ℕ)
              → codes.Decoding z' consumed' produced'
              → Fits
                  (InflowOf L codes consumed' produced' (bytes' ++ to_come ep1.wire.incoming))
                  (inflate_loop L fuel z' bytes' n ep1))
          → Fits (InflowOf L codes consumed produced (waiting ++ to_come ep.wire.incoming)) (
              after_refill L
                (λ z' waiting' ep'. inflate_loop L fuel z' waiting' n ep')
                z
                n
                (r, ep1))
      inflating (stop readsize) ep1 k next =
          subst
            (λ t.
              Inflow L codes consumed produced t [] readsize
                (record ep1 { mccp_in = some (record { state = z; next_in = [] }) }))
            k.0 (nothing L codes z consumed produced [] readsize ep1 d)
      inflating (input bytes) ep1 k next =
          subst
            (λ t. Fits (InflowOf L codes consumed produced t) (
              after_inflate L (λ z' waiting' ep'. inflate_loop L fuel z' waiting' n ep') z bytes ep1
                (L.inflate z bytes n)))
            k.0
            (after_inflate-Inflow L codes (λ z' waiting' ep'. inflate_loop L fuel z' waiting' n ep')
              z consumed produced bytes n ep1 (L.inflate z bytes n) refl d next)

  -- The bytes of a read, with what the stream has been fed for them: together with those that were read
  -- before they are a first part of what the peer compressed.
  pub record Decoded (n : ℕ) (consumed produced source bytes : List ℕ) (ret : Ret)
      (ep' : Endpoint L) : Type 0 where
    pub inflow : Inflow L codes consumed produced source bytes ret ep'
    pub rest : List ℕ
    pub readable : codes.decompress (consumed ++ inflow.fed) ≡ (produced ++ bytes) ++ rest
    pub bounded : length bytes ≤ n
    pub counts : is_positive ret ≡ true → Counts ret bytes

  abbrev pub DecodedBy :
      (n : ℕ) (consumed produced source : List ℕ) → Ret × List ℕ × Endpoint L → Type 0
  DecodedBy n consumed produced source (ret, bytes, ep') =
      Decoded n consumed produced source bytes ret ep'

  -- A side whose input stream has consumed some bytes, with some that wait, on a plain socket or
  -- under TLS with a peer that hangs up in the end, and with zlib's promises on `inflate`: a read
  -- of up to n bytes returns at most n, which a positive result counts; the stream has been fed a
  -- first part of what waited or was still to come, the rest is still there, in order, and what
  -- was read before and then now is a first part of what all that was fed decompresses to.
  pub read_endpoint-Decodes :
      (inflates : InflateLaws L) (ep : Endpoint L) (n : ℕ) (z : InStream L)
      (consumed produced : List ℕ)
      → ep.mccp_in ≡ some z
      → codes.Decoding z.state consumed produced
      → Answers L ep
      → Returns
          (DecodedBy n consumed produced (z.next_in ++ to_come ep.wire.incoming))
          (read_endpoint L ep n)
  read_endpoint-Decodes inflates ep n z consumed produced active d live =
      Returns-weaken
        (λ r.
          Yields L n ep r
          × InflowOf L codes consumed produced (z.next_in ++ to_come ep.wire.incoming) r)
        _ (read_endpoint L ep n)
        (Bounded-Fits (Yields L n ep)
          (InflowOf L codes consumed produced (z.next_in ++ to_come ep.wire.incoming))
          (read_endpoint L ep n)
          (Returns-Bounded (Yields L n ep) (read_endpoint L ep n)
            (read_endpoint-Yields L inflates n ep live))
          (rw (read_endpoint_compressed_eq L inflates n ep z active)
            (inflate_loop-Inflow _ z.state consumed produced z.next_in n ep d live)))
        (λ (ret, bytes, ep') (y, i).
          let (rest, e) =
            codes.inflate_decodes i.state (consumed ++ i.fed) (produced ++ (bytes ++ i.lost))
              i.decoding in
          record {
            inflow = i;
            rest = i.lost ++ rest;
            readable =
                e
                ∙ ap (λ t. t ++ rest) (sym (append_assoc produced bytes i.lost))
                ∙ append_assoc (produced ++ bytes) i.lost rest;
            bounded = y.1;
            counts = y.2;
          })
