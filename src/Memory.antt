-- ===== src/Memory.antt =====
-- The memory that the parts allocate and release: `new_iobuf` and `free_iobuf` of iobuf.c, `new_pattern`,
-- `free_pattern` and `add_pattern` of handlers.c, `new_zstream` and `free_zstream` of mccp.c with the
-- actions that call them, and `new_endpoint` and `free_endpoint` of proxy.c. A block is a number; an
-- object of a library is a block that stands for all that its own call releases.
pub mod Held
pub mod Released
pub mod Life
pub mod Clean
pub mod Lives
use mudit_m.Base.{
  ℕ, suc, Bool, true, false, Option, none, some, List, [], ◌∷◌, ◌++◌, ◌==◌, if◌then◌else◌,
}
use mudit_m.Run.{Run, ok, overrun, stray, ◌>>=◌}

-- The blocks that are there, and the next that will be.
pub record Heap : Type 0 where
  pub next : ℕ
  pub live : List ℕ

abbrev pub malloc : Heap → ℕ × Heap
malloc h = (h.next, record { next = suc h.next; live = h.next ∷ h.live })

abbrev pub without : ℕ → List ℕ → Option (List ℕ)
without p [] = none
without p (x ∷ xs) =
    if p == x then some xs else elim (without p xs) [ none ↦ none | some ys ↦ some (x ∷ ys) ]

abbrev pub leaving : Heap → Option (List ℕ) → Run Heap
leaving h none = overrun stray
leaving h (some live) = ok (record h { live = live })

-- To release a block that is not there is an error.
unfoldable pub free : ℕ → Heap → Run Heap
free p h = leaving h (without p h.live)

-- `if(p) free(p);`
unfoldable pub free_if : Option ℕ → Heap → Run Heap
free_if none h = ok h
free_if (some p) h = free p h

-- The blocks of an `Iobuf`.
pub record IobufBlocks : Type 0 where
  pub self : ℕ
  pub head : Option ℕ

abbrev pub new_iobuf_blocks : Heap → IobufBlocks × Heap
new_iobuf_blocks h =
    let (self, h1) = malloc h in
    let (head, h2) = malloc h1 in (record { self = self; head = some head }, h2)

unfoldable pub free_iobuf : Option IobufBlocks → Heap → Run Heap
free_iobuf none h = ok h
free_iobuf (some iob) h = free_if iob.head h >>= free iob.self

-- The blocks of a `struct pattern_data`, and the cell of the list that holds it.
pub record PatternBlocks : Type 0 where
  pub cell : ℕ
  pub self : ℕ
  pub pat : Option ℕ

unfoldable pub new_pattern : Heap → ℕ × Heap
new_pattern h = malloc h

unfoldable pub free_pattern : PatternBlocks → Heap → Run Heap
free_pattern m h = free_if m.pat h >>= free m.self

unfoldable pub free_patterns : List PatternBlocks → Heap → Run Heap
free_patterns [] h = ok h
free_patterns (m ∷ patterns) h = free_pattern m h >>= free_patterns patterns

-- The cells of the list, which `g_list_free` releases and which `g_list_append` makes.
unfoldable pub free_cells : List PatternBlocks → Heap → Run Heap
free_cells [] h = ok h
free_cells (m ∷ patterns) h = free m.cell h >>= free_cells patterns

-- A `z_stream`, and the state that zlib keeps for it from its `Init` to its `End`.
pub record ZstreamBlocks : Type 0 where
  pub self : ℕ
  pub state : ℕ

unfoldable pub new_zstream : Heap → ℕ × Heap
new_zstream h = malloc h

unfoldable pub free_zstream : ℕ → Heap → Run Heap
free_zstream z h = free z h

-- `deflateEnd` or `inflateEnd`, which release what zlib keeps for the stream, and `free`.
unfoldable pub end_zstream : Option ZstreamBlocks → Heap → Run Heap
end_zstream none h = ok h
end_zstream (some z) h = free z.state h >>= free z.self

-- The blocks of an `Endpoint`.
pub record EndpointBlocks : Type 0 where
  pub self : ℕ
  pub name : Option ℕ
  pub ssl : Option ℕ
  pub iobuf_in : Option IobufBlocks
  pub iobuf_out : Option IobufBlocks
  pub patterns : List PatternBlocks
  pub re : Option ℕ
  pub match_data : Option ℕ
  pub mccp_in : Option ZstreamBlocks
  pub mccp_out : Option ZstreamBlocks
  pub ziobuf_in : Option IobufBlocks
  pub ziobuf_out : Option IobufBlocks

unfoldable pub new_endpoint_blocks : Heap → EndpointBlocks × Heap
new_endpoint_blocks h =
    let (self, h1) = malloc h in
    let (name, h2) = malloc h1 in
    let (iobuf_in, h3) = new_iobuf_blocks h2 in
    let (iobuf_out, h4) = new_iobuf_blocks h3 in
    let (ziobuf_in, h5) = new_iobuf_blocks h4 in
    let (ziobuf_out, h6) = new_iobuf_blocks h5 in
    (
      record {
        self = self;
        name = some name;
        ssl = none;
        iobuf_in = some iobuf_in;
        iobuf_out = some iobuf_out;
        patterns = [];
        re = none;
        match_data = none;
        mccp_in = none;
        mccp_out = none;
        ziobuf_in = some ziobuf_in;
        ziobuf_out = some ziobuf_out;
      },
      h6,
    )

-- Of `close_endpoint`: `SSL_free`.
unfoldable pub free_endpoint : EndpointBlocks → Heap → Run Heap
free_endpoint ep h = do
  h1 ← free_if ep.ssl h
  h2 ← free_if ep.name h1
  h3 ← free_iobuf ep.iobuf_in h2
  h4 ← free_iobuf ep.iobuf_out h3
  h5 ← free_patterns ep.patterns h4
  h6 ← free_cells ep.patterns h5
  h7 ← free_if ep.re h6
  h8 ← free_if ep.match_data h7
  h9 ← end_zstream ep.mccp_in h8
  h10 ← free_iobuf ep.ziobuf_in h9
  h11 ← end_zstream ep.mccp_out h10
  h12 ← free_iobuf ep.ziobuf_out h11
  free ep.self h12

-- What an endpoint is used for, as far as memory is concerned. A stream begins if zlib's `Init` does
-- not fail.
pub data Use : Type 0 where
  starts_tls adds_pattern installs_patterns stops_output : Use
  begins_output begins_input : (initialised : Bool) → Use

-- The new stream, if zlib has initialised it.
abbrev pub begin_zstream : Bool → Heap → Run (Option ZstreamBlocks × Heap)
begin_zstream true h =
    let (self, h1) = new_zstream h in
    let (state, h2) = malloc h1 in ok (some (record { self = self; state = state }), h2)
begin_zstream false h =
    let (self, h1) = new_zstream h in free_zstream self h1 >>= λ h2. ok (none, h2)

abbrev pub with_output : EndpointBlocks → Option ZstreamBlocks × Heap → Run (EndpointBlocks × Heap)
with_output ep (begun, h) = ok (record ep { mccp_out = begun }, h)

-- A stream that was there is overwritten.
abbrev pub with_input : EndpointBlocks → Option ZstreamBlocks × Heap → Run (EndpointBlocks × Heap)
with_input ep (none, h) = ok (ep, h)
with_input ep (some z, h) = ok (record ep { mccp_in = some z }, h)

-- Of `mccp2_do`: a stream that is active stays.
unfoldable pub begin_deflate :
    Bool → Option ZstreamBlocks → EndpointBlocks → Heap → Run (EndpointBlocks × Heap)
begin_deflate initialised (some z) ep h = ok (ep, h)
begin_deflate initialised none ep h = begin_zstream initialised h >>= with_output ep

-- Of `mccp2_dont`.
unfoldable pub stop_deflate :
    Option ZstreamBlocks → EndpointBlocks → Heap → Run (EndpointBlocks × Heap)
stop_deflate none ep h = ok (ep, h)
stop_deflate (some z) ep h = free_zstream z.self h >>= λ h1. ok (record ep { mccp_out = none }, h1)

unfoldable pub start_ssl : EndpointBlocks → Heap → EndpointBlocks × Heap
start_ssl ep h = let (ssl, h1) = malloc h in (record ep { ssl = some ssl }, h1)

unfoldable pub add_pattern : EndpointBlocks → Heap → EndpointBlocks × Heap
unfolding new_pattern
add_pattern ep h =
    let (self, h1) = new_pattern h in
    let (pat, h2) = malloc h1 in
    let (cell, h3) = malloc h2 in
    let p : PatternBlocks = record { cell = cell; self = self; pat = some pat } in
    (record ep { patterns = ep.patterns ++ (p ∷ []) }, h3)

-- The ends of `add_game_patterns` and `add_client_patterns`.
unfoldable pub install_patterns : EndpointBlocks → Heap → EndpointBlocks × Heap
install_patterns ep h =
    let (re, h1) = malloc h in
    let (match_data, h2) = malloc h1 in
    (record ep { re = some re; match_data = some match_data }, h2)

-- Of `mccp2_sb_start`.
unfoldable pub begin_inflate : Bool → EndpointBlocks → Heap → Run (EndpointBlocks × Heap)
begin_inflate initialised ep h = begin_zstream initialised h >>= with_input ep

unfoldable pub use_endpoint : Use → EndpointBlocks → Heap → Run (EndpointBlocks × Heap)
use_endpoint starts_tls ep h = ok (start_ssl ep h)
use_endpoint adds_pattern ep h = ok (add_pattern ep h)
use_endpoint installs_patterns ep h = ok (install_patterns ep h)
use_endpoint (begins_output initialised) ep h = begin_deflate initialised ep.mccp_out ep h
use_endpoint stops_output ep h = stop_deflate ep.mccp_out ep h
use_endpoint (begins_input initialised) ep h = begin_inflate initialised ep h

unfoldable pub use_all : List Use → EndpointBlocks → Heap → Run (EndpointBlocks × Heap)
use_all [] ep h = ok (ep, h)
use_all (u ∷ uses) ep h = use_endpoint u ep h >>= λ r. use_all uses r.0 r.1

-- An endpoint from its making to its release.
unfoldable pub live_endpoint : List Use → Heap → Run Heap
live_endpoint uses h =
    let (ep, h1) = new_endpoint_blocks h in use_all uses ep h1 >>= λ r. free_endpoint r.0 r.1
