-- ===== src/Memory/Life.antt =====
-- The memory of an endpoint (proxy.c) from `new_endpoint` to `free_endpoint`, over what it is used for.
use mudit_m.Base.{
  ℕ, suc, ◌+◌, ◌≡◌, refl, sym, ap, Bool, true, false, Option, none, some, List, [], ◌∷◌, ◌++◌,
  arith,
}
use mudit_m.Run.{Returns, Returns-bind, Returns-weaken}
use mudit_m.Memory.{
  Heap, malloc, free, EndpointBlocks, PatternBlocks, ZstreamBlocks, Use, starts_tls, adds_pattern,
  installs_patterns, stops_output, begins_output, begins_input, use_endpoint, start_ssl,
  add_pattern, install_patterns, begin_inflate, begin_zstream, with_output, with_input,
  begin_deflate, stop_deflate, new_zstream, free_zstream, new_pattern,
}
use mudit_m.Memory.Held.{
  tick, times, times-append, Holds, Holds-order, malloc-Holds, free-Holds, blocks_of,
}
use mudit_m.Memory.Released.{owned, pattern_blocks, cells, zstream_blocks}

-- What a use overwrites or forgets.
abbrev pub lost : Use → EndpointBlocks → List ℕ
lost starts_tls ep = blocks_of ep.ssl
lost adds_pattern ep = []
lost installs_patterns ep = blocks_of ep.re ++ blocks_of ep.match_data
lost (begins_output initialised) ep = []
lost stops_output ep = elim ep.mccp_out [ none ↦ [] | some z ↦ z.state ∷ [] ]
lost (begins_input true) ep = zstream_blocks ep.mccp_in
lost (begins_input false) ep = []

abbrev pub Accounts : List ℕ → EndpointBlocks × Heap → Type 0
Accounts rest (ep, h) = Holds h (owned ep ++ rest)

times-pattern_blocks :
    (a : ℕ) (xs : List PatternBlocks) (p : PatternBlocks)
    → times a (pattern_blocks (xs ++ (p ∷ [])))
      ≡ times a (pattern_blocks xs) + times a (blocks_of p.pat) + tick a p.self
times-pattern_blocks a [] p = simp (times-append a) (omega arith)
times-pattern_blocks a (x ∷ xs) p =
    simp (times-append a) (omega (arith, times-pattern_blocks a xs p))

times-cells :
    (a : ℕ) (xs : List PatternBlocks) (p : PatternBlocks)
    → times a (cells (xs ++ (p ∷ []))) ≡ times a (cells xs) + tick a p.cell
times-cells a [] p = omega arith
times-cells a (x ∷ xs) p = omega (arith, times-cells a xs p)

-- What `begin_zstream` and the calls behind it do to the heap.
begun_true :
    (h : Heap) (blocks : List ℕ)
    → Holds h blocks
    → Holds (malloc (malloc h).1).1 (suc h.next ∷ h.next ∷ blocks)
begun_true h blocks k = malloc-Holds _ _ (malloc-Holds h blocks k)

-- A stream has begun, or all is as it was.
begin_zstream_fails :
    (h : Heap) (blocks : List ℕ)
    → Holds h blocks
    → Returns (λ r. (r.0 ≡ none) × Holds r.1 blocks) (begin_zstream false h)
unfolding new_zstream free_zstream
begin_zstream_fails h blocks k =
    Returns-bind (λ h'. Holds h' blocks) _ (free h.next (malloc h).1) _
      (free-Holds h.next (malloc h).1 blocks (malloc-Holds h blocks k)) (λ h' k'. (refl, k'))

begin_zstream-Holds :
    (initialised : Bool) (h : Heap) (blocks : List ℕ)
    → Holds h blocks
    → Returns (λ r. Holds r.1 (zstream_blocks r.0 ++ blocks)) (begin_zstream initialised h)
unfolding new_zstream free_zstream
begin_zstream-Holds true h blocks k = begun_true h blocks k
begin_zstream-Holds false h blocks k =
    Returns-weaken (λ r. (r.0 ≡ none) × Holds r.1 blocks) _ (begin_zstream false h)
      (begin_zstream_fails h blocks k)
      (λ r k'.
        let e : blocks ≡ zstream_blocks r.0 ++ blocks =
          ap (λ z. zstream_blocks z ++ blocks) (sym k'.0) in
        Holds-order r.1 _ _ k'.1 (λ a. ap (times a) e))

begin_deflate-Accounts :
    (initialised : Bool) (z : Option ZstreamBlocks) (ep : EndpointBlocks) (h : Heap) (rest : List ℕ)
    → ep.mccp_out ≡ z
    → Holds h (owned ep ++ rest)
    → Returns (Accounts rest) (begin_deflate initialised z ep h)
unfolding begin_deflate
begin_deflate-Accounts initialised (some z) ep h rest e k = k
begin_deflate-Accounts initialised none ep h rest e k =
    Returns-bind (λ r. Holds r.1 (zstream_blocks r.0 ++ (owned ep ++ rest))) _
      (begin_zstream initialised h) (with_output ep) (begin_zstream-Holds initialised h _ k)
      (λ r k'. Holds-order _ _ _ k' (λ a.
        let n = ap (λ o. times a (zstream_blocks o)) e in simp (times-append a) (omega (arith, n))))

-- Without a new stream the old one stays.
with_input_none :
    (ep : EndpointBlocks) (rest : List ℕ) (r : Option ZstreamBlocks × Heap)
    → (r.0 ≡ none) × Holds r.1 (owned ep ++ rest)
    → Returns (Accounts rest) (with_input ep r)
with_input_none ep rest (none, h) k = k.1
with_input_none ep rest (some z, h) k = absurd (let e = k.0 in cc)

stop_deflate-Accounts :
    (z : Option ZstreamBlocks) (ep : EndpointBlocks) (h : Heap) (rest : List ℕ)
    → ep.mccp_out ≡ z
    → Holds h (owned ep ++ rest)
    → Returns
        (Accounts (elim z [ none ↦ [] | some s ↦ s.state ∷ [] ] ++ rest))
        (stop_deflate z ep h)
unfolding stop_deflate free_zstream
stop_deflate-Accounts none ep h rest e k = k
stop_deflate-Accounts (some z) ep h rest e k =
    Returns-bind (λ h'. Holds h' (owned (record ep { mccp_out = none }) ++ (z.state ∷ rest))) _
      (free z.self h) _
      (free-Holds z.self h _ (
        Holds-order h _ _ k (λ a.
          let n = ap (λ o. times a (zstream_blocks o)) e in
          simp (times-append a) (omega (arith, n)))))
      (λ h' k'. k')

-- A use keeps the books: what it loses is still there, and belongs to nobody.
pub use_endpoint-Accounts :
    (u : Use) (ep : EndpointBlocks) (h : Heap) (rest : List ℕ)
    → Holds h (owned ep ++ rest)
    → Returns (Accounts (lost u ep ++ rest)) (use_endpoint u ep h)
unfolding use_endpoint start_ssl add_pattern install_patterns begin_inflate new_pattern new_zstream
    free_zstream
use_endpoint-Accounts starts_tls ep h rest k =
    Holds-order _ _ _ (malloc-Holds h _ k) (λ a. simp (times-append a) (omega arith))
use_endpoint-Accounts adds_pattern ep h rest k =
    Holds-order _ _ _ (malloc-Holds _ _ (begun_true h _ k)) (λ a.
      simp (times-append a, times-pattern_blocks a ep.patterns, times-cells a ep.patterns)
        (omega arith))
use_endpoint-Accounts installs_patterns ep h rest k =
    Holds-order _ _ _ (begun_true h _ k) (λ a. simp (times-append a) (omega arith))
use_endpoint-Accounts (begins_output initialised) ep h rest k =
    begin_deflate-Accounts initialised ep.mccp_out ep h rest refl k
use_endpoint-Accounts stops_output ep h rest k = stop_deflate-Accounts ep.mccp_out ep h rest refl k
use_endpoint-Accounts (begins_input true) ep h rest k =
    Holds-order _ _ _ (begun_true h _ k) (λ a. simp (times-append a) (omega arith))
use_endpoint-Accounts (begins_input false) ep h rest k =
    Returns-bind (λ r. (r.0 ≡ none) × Holds r.1 (owned ep ++ rest)) _ (begin_zstream false h)
      (with_input ep) (begin_zstream_fails h _ k) (with_input_none ep rest)
