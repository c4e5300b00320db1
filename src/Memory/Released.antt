-- ===== src/Memory/Released.antt =====
-- `free_endpoint` (proxy.c) and what it calls: every block of the endpoint is released, once.
use mudit_m.Base.{ℕ, Option, none, some, List, [], ◌∷◌, ◌++◌}
use mathlib.Core.List.{append_assoc}
use mathlib.Core.Path.{subst}
use mudit_m.Run.{Run, ◌>>=◌, Returns, Returns-bind}
use mudit_m.Memory.{
  Heap, free_if, IobufBlocks, PatternBlocks, ZstreamBlocks, EndpointBlocks, free, free_iobuf,
  free_pattern, free_patterns, free_cells, end_zstream, free_endpoint,
}
use mudit_m.Memory.Held.{Holds, free-Holds, blocks_of, free_if-Holds}

abbrev pub iobuf_blocks : Option IobufBlocks → List ℕ
iobuf_blocks none = []
iobuf_blocks (some iob) = blocks_of iob.head ++ (iob.self ∷ [])

abbrev pub zstream_blocks : Option ZstreamBlocks → List ℕ
zstream_blocks none = []
zstream_blocks (some z) = z.state ∷ z.self ∷ []

abbrev pub pattern_blocks : List PatternBlocks → List ℕ
pattern_blocks [] = []
pattern_blocks (m ∷ patterns) = (blocks_of m.pat ++ (m.self ∷ [])) ++ pattern_blocks patterns

abbrev pub cells : List PatternBlocks → List ℕ
cells [] = []
cells (m ∷ patterns) = m.cell ∷ cells patterns

-- All blocks that an endpoint points to, and its own.
abbrev pub owned : EndpointBlocks → List ℕ
owned ep =
    blocks_of ep.ssl
    ++ (blocks_of ep.name
        ++ (iobuf_blocks ep.iobuf_in
            ++ (iobuf_blocks ep.iobuf_out
                ++ (pattern_blocks ep.patterns
                    ++ (cells ep.patterns
                        ++ (blocks_of ep.re
                            ++ (blocks_of ep.match_data
                                ++ (zstream_blocks ep.mccp_in
                                    ++ (iobuf_blocks ep.ziobuf_in
                                        ++ (zstream_blocks ep.mccp_out
                                            ++ (iobuf_blocks ep.ziobuf_out
                                                ++ (ep.self ∷ []))))))))))))

-- A call that releases some blocks and nothing else.
abbrev pub Releases : List ℕ → (Heap → Run Heap) → Type 0
Releases blocks f =
    (h : Heap) (rest : List ℕ) → Holds h (blocks ++ rest) → Returns (λ h'. Holds h' rest) (f h)

-- One release behind another.
then-Releases :
    (xs ys : List ℕ) (m : Heap → Run Heap) (f : Heap → Run Heap)
    → Releases xs m
    → Releases ys f
    → Releases (xs ++ ys) (λ h. m h >>= f)
then-Releases xs ys m f a b h rest k =
    Returns-bind (λ h1. Holds h1 (ys ++ rest)) _ (m h) f
      (a h (ys ++ rest) (subst (Holds h) (append_assoc xs ys rest) k)) (λ h1 k1. b h1 rest k1)

free-Releases : (p : ℕ) → Releases (p ∷ []) (free p)
free-Releases p h rest k = free-Holds p h rest k

free_iobuf-Releases : (iob : Option IobufBlocks) → Releases (iobuf_blocks iob) (free_iobuf iob)
unfolding free_iobuf
free_iobuf-Releases none h rest k = k
free_iobuf-Releases (some iob) h rest k =
    then-Releases (blocks_of iob.head) (iob.self ∷ []) (free_if iob.head) (free iob.self)
      (free_if-Holds iob.head) (free-Releases iob.self) h rest k

free_pattern-Releases :
    (m : PatternBlocks) → Releases (blocks_of m.pat ++ (m.self ∷ [])) (free_pattern m)
unfolding free_pattern
free_pattern-Releases m =
    then-Releases (blocks_of m.pat) (m.self ∷ []) (free_if m.pat) (free m.self)
      (free_if-Holds m.pat) (free-Releases m.self)

free_patterns-Releases :
    (patterns : List PatternBlocks) → Releases (pattern_blocks patterns) (free_patterns patterns)
unfolding free_patterns
free_patterns-Releases [] h rest k = k
free_patterns-Releases (m ∷ patterns) h rest k =
    then-Releases (blocks_of m.pat ++ (m.self ∷ [])) (pattern_blocks patterns) (free_pattern m)
      (free_patterns patterns) (free_pattern-Releases m) (free_patterns-Releases patterns) h rest k

free_cells-Releases :
    (patterns : List PatternBlocks) → Releases (cells patterns) (free_cells patterns)
unfolding free_cells
free_cells-Releases [] h rest k = k
free_cells-Releases (m ∷ patterns) h rest k =
    then-Releases (m.cell ∷ []) (cells patterns) (free m.cell) (free_cells patterns)
      (free-Releases m.cell) (free_cells-Releases patterns) h rest k

end_zstream-Releases : (z : Option ZstreamBlocks) → Releases (zstream_blocks z) (end_zstream z)
unfolding end_zstream
end_zstream-Releases none h rest k = k
end_zstream-Releases (some z) h rest k =
    then-Releases (z.state ∷ []) (z.self ∷ []) (free z.state) (free z.self) (free-Releases z.state)
      (free-Releases z.self) h rest k

-- From a heap
pub free_endpoint-Releases : (ep : EndpointBlocks) → Releases (owned ep) (free_endpoint ep)
unfolding free_endpoint
free_endpoint-Releases ep = then-Releases _ _ (free_if ep.ssl) _ (free_if-Holds ep.ssl) (
    then-Releases _ _ (free_if ep.name) _ (free_if-Holds ep.name) (
      then-Releases _ _ (free_iobuf ep.iobuf_in) _ (free_iobuf-Releases ep.iobuf_in) (
        then-Releases _ _ (free_iobuf ep.iobuf_out) _ (free_iobuf-Releases ep.iobuf_out) (
          then-Releases _ _ (free_patterns ep.patterns) _ (free_patterns-Releases ep.patterns) (
            then-Releases _ _ (free_cells ep.patterns) _ (free_cells-Releases ep.patterns) (
              then-Releases _ _ (free_if ep.re) _ (free_if-Holds ep.re) (
                then-Releases _ _ (free_if ep.match_data) _ (free_if-Holds ep.match_data) (
                  then-Releases _ _ (end_zstream ep.mccp_in) _ (end_zstream-Releases ep.mccp_in) (
                    then-Releases _ _ (free_iobuf ep.ziobuf_in) _ (free_iobuf-Releases ep.ziobuf_in)
                      (then-Releases _ _ (end_zstream ep.mccp_out) _
                        (end_zstream-Releases ep.mccp_out)
                        (then-Releases _ _ (free_iobuf ep.ziobuf_out) (free ep.self)
                          (free_iobuf-Releases ep.ziobuf_out) (free-Releases ep.self))))))))))))
