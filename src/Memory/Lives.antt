-- ===== src/Memory/Lives.antt =====
-- The memory of whole lives of an endpoint (proxy.c, mccp.c): those that give all of it back, and
-- clients that turn compression on and off.
use mudit_m.Base.{
  ℕ, zero, suc, ◌≡◌, refl, ap, true, Option, none, some, List, [], ◌∷◌, ◌++◌, length, arith,
}
use mathlib.Core.Path.{subst}
use mudit_m.Run.{◌>>=◌, Returns, Returns-bind, Returns-weaken, Partial, Partial-Returns}
use mudit_m.Memory.{
  Heap, EndpointBlocks, ZstreamBlocks, Use, stops_output, begins_output, use_endpoint, use_all,
  begin_deflate, new_iobuf_blocks, new_endpoint_blocks, free_endpoint, live_endpoint, new_zstream,
}
use mudit_m.Memory.Held.{Holds, times-append, Holds-order, malloc-Holds}
use mudit_m.Memory.Released.{owned, free_endpoint-Releases}
use mudit_m.Memory.Life.{lost, Accounts, use_endpoint-Accounts}
use mudit_m.Memory.Clean.{is_tidy, nothing_seen, Knows, use_all-Accounts}

new_iobuf-Holds :
    (h : Heap) (blocks : List ℕ)
    → Holds h blocks
    → Holds (new_iobuf_blocks h).1 (suc h.next ∷ h.next ∷ blocks)
new_iobuf-Holds h blocks k = malloc-Holds _ _ (malloc-Holds h blocks k)

pub new_endpoint-Holds :
    (h : Heap) (rest : List ℕ)
    → Holds h rest
    → Holds (new_endpoint_blocks h).1 (owned (new_endpoint_blocks h).0 ++ rest)
unfolding new_endpoint_blocks
new_endpoint-Holds h rest k =
    Holds-order _ _ _
      (new_iobuf-Holds _ _ (
        new_iobuf-Holds _ _
          (new_iobuf-Holds _ _ (new_iobuf-Holds _ _ (malloc-Holds _ _ (malloc-Holds h rest k))))))
      (λ a. omega arith)

new_endpoint-Knows : (h : Heap) → Knows nothing_seen (new_endpoint_blocks h).0
unfolding new_endpoint_blocks
new_endpoint-Knows h = record {
  no_tls = λ e. refl;
  no_re = λ e. refl;
  no_match_data = λ e. refl;
  no_output = λ e. refl;
  no_input = λ e. refl;
}

-- The end of a life.
released :
    (rest : List ℕ) (r : EndpointBlocks × Heap)
    → Accounts rest r
    → Returns (λ h'. Holds h' rest) (free_endpoint r.0 r.1)
released rest (ep, h) k = free_endpoint-Releases ep h rest k

-- An endpoint is made, used and released, where TLS starts at most once, patterns are installed
-- at most once, at most one input stream is asked for, and compression is not refused once an
-- output stream was asked for: no block is released that is not there, and the heap holds the
-- blocks that it held before.
pub live_endpoint-Returns :
    (uses : List Use) (h : Heap) (rest : List ℕ)
    → Holds h rest
    → is_tidy nothing_seen uses ≡ true
    → Returns (λ h'. Holds h' rest) (live_endpoint uses h)
unfolding live_endpoint
live_endpoint-Returns uses h rest k t =
    Returns-bind (Accounts rest) _
      (use_all uses (new_endpoint_blocks h).0 (new_endpoint_blocks h).1) _
      (use_all-Accounts uses nothing_seen (new_endpoint_blocks h).0 (new_endpoint_blocks h).1 rest t
        (new_endpoint-Knows h) (new_endpoint-Holds h rest k))
      (λ r a. released rest r a)

-- A client that accepts compression and refuses it again, so many times.
abbrev pub changes_of_mind : ℕ → List Use
changes_of_mind zero = []
changes_of_mind (suc n) = begins_output true ∷ stops_output ∷ changes_of_mind n

-- What nobody points to.
pub record Leaks (n : ℕ) (rest : List ℕ) (h : Heap) : Type 0 where
  pub leaked : List ℕ
  pub counted : length leaked ≡ n
  pub holds : Holds h (leaked ++ rest)

Active : EndpointBlocks → Type 0
Active ep = (z : ZstreamBlocks) × (ep.mccp_out ≡ some z)

begin_deflate-Active :
    (z : Option ZstreamBlocks) (ep : EndpointBlocks) (h : Heap)
    → ep.mccp_out ≡ z
    → Partial (λ r. Active r.0) (begin_deflate true z ep h)
unfolding begin_deflate new_zstream Active
begin_deflate-Active (some z) ep h e = (z, e)
begin_deflate-Active none ep h e = (record { self = h.next; state = suc h.next }, refl)

accepted :
    (ep : EndpointBlocks) (h : Heap) (rest : List ℕ)
    → Holds h (owned ep ++ rest)
    → Returns (λ r. Active r.0 × Accounts rest r) (use_endpoint (begins_output true) ep h)
unfolding use_endpoint
accepted ep h rest k =
    Partial-Returns (λ r. Active r.0) (Accounts rest) (use_endpoint (begins_output true) ep h)
      (begin_deflate-Active ep.mccp_out ep h refl)
      (use_endpoint-Accounts (begins_output true) ep h rest k)

refused :
    (ep : EndpointBlocks) (h : Heap) (rest : List ℕ)
    → Active ep
    → Holds h (owned ep ++ rest)
    → Returns (λ r. (state : ℕ) × Accounts (state ∷ rest) r) (use_endpoint stops_output ep h)
unfolding Active
refused ep h rest (z, e) k =
    Returns-weaken (Accounts (lost stops_output ep ++ rest)) _ (use_endpoint stops_output ep h)
      (use_endpoint-Accounts stops_output ep h rest k)
      (λ r a.
        let l : lost stops_output ep ≡ z.state ∷ [] =
          ap (λ (o : Option ZstreamBlocks). elim o [ none ↦ [] | some s ↦ s.state ∷ [] ]) e in
        (z.state, subst (λ t. Accounts (t ++ rest) r) l a))

changes-Leak :
    (n : ℕ) (ep : EndpointBlocks) (h : Heap) (rest : List ℕ)
    → Holds h (owned ep ++ rest)
    → Returns
        (λ r. (leaked : List ℕ) × (length leaked ≡ n) × Accounts (leaked ++ rest) r)
        (use_all (changes_of_mind n) ep h)
unfolding use_all
changes-Leak zero ep h rest k = ([], refl, k)
changes-Leak (suc n) ep h rest k =
    Returns-bind (λ r. Active r.0 × Accounts rest r) _ (use_endpoint (begins_output true) ep h) _
      (accepted ep h rest k)
      (λ r a.
        Returns-bind (λ r1. (state : ℕ) × Accounts (state ∷ rest) r1) _
          (use_endpoint stops_output r.0 r.1) _ (refused r.0 r.1 rest a.0 a.1)
          (λ r1 b.
            Returns-weaken _ _ (use_all (changes_of_mind n) r1.0 r1.1)
              (changes-Leak n r1.0 r1.1 (b.0 ∷ rest) b.1)
              (λ r2 c. (
                b.0 ∷ c.0,
                ap suc c.1,
                Holds-order _ _ _ c.2 (λ a. simp (times-append a) (omega arith)),
              ))))

-- A client accepts compression and refuses it again, n times in turn, and zlib's `deflateInit`
-- never fails: when the endpoint is released, the heap still holds n blocks beside those of
-- others.
pub free_endpoint-Leaks :
    (n : ℕ) (ep : EndpointBlocks) (h : Heap) (rest : List ℕ)
    → Holds h (owned ep ++ rest)
    → Returns (Leaks n rest) (use_all (changes_of_mind n) ep h >>= λ r. free_endpoint r.0 r.1)
free_endpoint-Leaks n ep h rest k =
    Returns-bind _ _ (use_all (changes_of_mind n) ep h) _ (changes-Leak n ep h rest k) (λ r c.
      Returns-weaken (λ h'. Holds h' (c.0 ++ rest)) _ (free_endpoint r.0 r.1)
        (released (c.0 ++ rest) r c.2)
        (λ h' held. record { leaked = c.0; counted = c.1; holds = held }))
