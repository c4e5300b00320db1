-- ===== src/Memory/Clean.antt =====
-- Which lives of an endpoint (proxy.c, mccp.c) give all memory back, and which do not.
use mudit_m.Base.{
  ℕ, ◌≡◌, refl, ap, ◌∙◌, Bool, true, false, Option, none, some, List, [], ◌∷◌, ◌++◌, if◌then◌else◌,
  Bool-cases, inl, inr,
}
use mathlib.Core.Path.{subst}
use mudit_m.Run.{Returns, Returns-bind, Partial, Partial-bind, Partial-Returns}
use mudit_m.Memory.{
  Heap, malloc, EndpointBlocks, ZstreamBlocks, Use, starts_tls, adds_pattern, installs_patterns,
  stops_output, begins_output, begins_input, use_endpoint, start_ssl, add_pattern, install_patterns,
  begin_inflate, use_all, begin_zstream, with_input, begin_deflate, stop_deflate, new_zstream,
  free_zstream, free, leaving, without,
}
use mudit_m.Memory.Held.{Holds, blocks_of}
use mudit_m.Memory.Released.{owned, zstream_blocks}
use mudit_m.Memory.Life.{lost, Accounts, use_endpoint-Accounts}

-- What an endpoint may have by now.
pub record Seen : Type 0 where
  pub tls : Bool
  pub rules : Bool
  pub output : Bool
  pub input : Bool

abbrev seen_after : Use → Seen → Seen
seen_after starts_tls s = record s { tls = true }
seen_after adds_pattern s = s
seen_after installs_patterns s = record s { rules = true }
seen_after (begins_output initialised) s = record s { output = true }
seen_after stops_output s = s
seen_after (begins_input initialised) s = record s { input = true }

-- A use that would forget or overwrite what there may be.
abbrev is_waste : Use → Seen → Bool
is_waste starts_tls s = s.tls
is_waste adds_pattern s = false
is_waste installs_patterns s = s.rules
is_waste (begins_output initialised) s = false
is_waste stops_output s = s.output
is_waste (begins_input initialised) s = s.input

-- TLS and patterns once, one stream of each kind at most, and no refusal once an output stream was
-- asked for.
abbrev pub is_tidy : Seen → List Use → Bool
is_tidy s [] = true
is_tidy s (u ∷ uses) = if is_waste u s then false else is_tidy (seen_after u s) uses

abbrev pub nothing_seen : Seen
nothing_seen = record { tls = false; rules = false; output = false; input = false }

-- What was not seen is not there.
pub record Knows (s : Seen) (ep : EndpointBlocks) : Type 0 where
  pub no_tls : s.tls ≡ false → ep.ssl ≡ none
  pub no_re : s.rules ≡ false → ep.re ≡ none
  pub no_match_data : s.rules ≡ false → ep.match_data ≡ none
  pub no_output : s.output ≡ false → ep.mccp_out ≡ none
  pub no_input : s.input ≡ false → ep.mccp_in ≡ none

lost_nothing :
    (u : Use) (s : Seen) (ep : EndpointBlocks) → Knows s ep → is_waste u s ≡ false → lost u ep ≡ []
lost_nothing starts_tls s ep k e = ap blocks_of (k.no_tls e)
lost_nothing adds_pattern s ep k e = refl
lost_nothing installs_patterns s ep k e =
    ap (λ o. blocks_of o ++ blocks_of ep.match_data) (k.no_re e) ∙ ap blocks_of (k.no_match_data e)
lost_nothing (begins_output initialised) s ep k e = refl
lost_nothing stops_output s ep k e =
    ap (λ (o : Option ZstreamBlocks). elim o [ none ↦ [] | some z ↦ z.state ∷ [] ]) (k.no_output e)
lost_nothing (begins_input true) s ep k e = ap zstream_blocks (k.no_input e)
lost_nothing (begins_input false) s ep k e = refl

never : {A : Type 0} → true ≡ false → A
never e = absurd (cc)

frees : (h : Heap) (blocks : Option (List ℕ)) → Partial (λ h'. Unit {0}) (leaving h blocks)
frees h none = tt
frees h (some live) = tt

free_ends : (p : ℕ) (h : Heap) → Partial (λ h'. Unit {0}) (free p h)
unfolding free
free_ends p h = frees h (without p h.live)

begins : (initialised : Bool) (h : Heap) → Partial (λ r. Unit {0}) (begin_zstream initialised h)
unfolding new_zstream free_zstream
begins true h = tt
begins false h =
    Partial-bind (λ h'. Unit {0}) (λ r. Unit {0}) (free h.next (malloc h).1) _
      (free_ends h.next (malloc h).1) (λ h' k. tt)

-- Knowledge about an endpoint that has an output stream, or may have one.
with_output_seen :
    (s : Seen) (ep : EndpointBlocks) (z : Option ZstreamBlocks)
    → Knows s ep
    → Knows (record s { output = true }) (record ep { mccp_out = z })
with_output_seen s ep z k = record {
  no_tls = k.no_tls;
  no_re = k.no_re;
  no_match_data = k.no_match_data;
  no_output = never;
  no_input = k.no_input;
}

output_seen : (s : Seen) (ep : EndpointBlocks) → Knows s ep → Knows (record s { output = true }) ep
output_seen s ep k = record {
  no_tls = k.no_tls;
  no_re = k.no_re;
  no_match_data = k.no_match_data;
  no_output = never;
  no_input = k.no_input;
}

begin_deflate-Knows :
    (initialised : Bool) (z : Option ZstreamBlocks) (s : Seen) (ep : EndpointBlocks) (h : Heap)
    → Knows s ep
    → Partial (λ r. Knows (record s { output = true }) r.0) (begin_deflate initialised z ep h)
unfolding begin_deflate
begin_deflate-Knows initialised (some z) s ep h k = output_seen s ep k
begin_deflate-Knows initialised none s ep h k =
    Partial-bind (λ r. Unit {0}) _ (begin_zstream initialised h) _ (begins initialised h)
      (λ r u. with_output_seen s ep r.0 k)

stop_deflate-Knows :
    (z : Option ZstreamBlocks) (s : Seen) (ep : EndpointBlocks) (h : Heap)
    → Knows s ep
    → Partial (λ r. Knows s r.0) (stop_deflate z ep h)
unfolding stop_deflate free_zstream
stop_deflate-Knows none s ep h k = k
stop_deflate-Knows (some z) s ep h k =
    Partial-bind (λ h'. Unit {0}) _ (free z.self h) _ (free_ends z.self h)
      (λ h' u. record {
        no_tls = k.no_tls;
        no_re = k.no_re;
        no_match_data = k.no_match_data;
        no_output = λ e. refl;
        no_input = k.no_input;
      })

with_input-Knows :
    (s : Seen) (ep : EndpointBlocks) (r : Option ZstreamBlocks × Heap)
    → Knows s ep
    → Partial (λ x. Knows (record s { input = true }) x.0) (with_input ep r)
with_input-Knows s ep (none, h) k = record {
  no_tls = k.no_tls;
  no_re = k.no_re;
  no_match_data = k.no_match_data;
  no_output = k.no_output;
  no_input = never;
}
with_input-Knows s ep (some z, h) k = record {
  no_tls = k.no_tls;
  no_re = k.no_re;
  no_match_data = k.no_match_data;
  no_output = k.no_output;
  no_input = never;
}

use_endpoint-Knows :
    (u : Use) (s : Seen) (ep : EndpointBlocks) (h : Heap)
    → Knows s ep
    → Partial (λ r. Knows (seen_after u s) r.0) (use_endpoint u ep h)
unfolding use_endpoint start_ssl add_pattern install_patterns begin_inflate
use_endpoint-Knows starts_tls s ep h k = record {
  no_tls = never;
  no_re = k.no_re;
  no_match_data = k.no_match_data;
  no_output = k.no_output;
  no_input = k.no_input;
}
use_endpoint-Knows adds_pattern s ep h k = record {
  no_tls = k.no_tls;
  no_re = k.no_re;
  no_match_data = k.no_match_data;
  no_output = k.no_output;
  no_input = k.no_input;
}
use_endpoint-Knows installs_patterns s ep h k = record {
  no_tls = k.no_tls;
  no_re = never;
  no_match_data = never;
  no_output = k.no_output;
  no_input = k.no_input;
}
use_endpoint-Knows (begins_output initialised) s ep h k =
    begin_deflate-Knows initialised ep.mccp_out s ep h k
use_endpoint-Knows stops_output s ep h k = stop_deflate-Knows ep.mccp_out s ep h k
use_endpoint-Knows (begins_input initialised) s ep h k =
    Partial-bind (λ r. Unit {0}) _ (begin_zstream initialised h) _ (begins initialised h)
      (λ r u. with_input-Knows s ep r k)

pub use_all-Accounts :
    (uses : List Use) (s : Seen) (ep : EndpointBlocks) (h : Heap) (rest : List ℕ)
    → is_tidy s uses ≡ true
    → Knows s ep
    → Holds h (owned ep ++ rest)
    → Returns (Accounts rest) (use_all uses ep h)
unfolding use_all
use_all-Accounts [] s ep h rest t k held = held
use_all-Accounts (u ∷ uses) s ep h rest t k held = elim (Bool-cases (is_waste u s)) [
  | inl waste ↦ absurd (let e = rw waste at t in cc)
  | inr tidy ↦
      Returns-bind (λ r. Knows (seen_after u s) r.0 × Accounts (lost u ep ++ rest) r) _
        (use_endpoint u ep h) _
        (Partial-Returns (λ r. Knows (seen_after u s) r.0) (Accounts (lost u ep ++ rest))
          (use_endpoint u ep h) (use_endpoint-Knows u s ep h k)
          (use_endpoint-Accounts u ep h rest held))
        (λ r p.
          use_all-Accounts uses (seen_after u s) r.0 r.1 rest (rw tidy at t) p.0
            (subst (λ t'. Holds r.1 (owned r.0 ++ (t' ++ rest))) (lost_nothing u s ep k tidy) p.1))
]
