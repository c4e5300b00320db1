-- ===== src/Endpoint/Decodes.antt =====
-- `inflate` in `read_endpoint_compressed` of mccp.c: what it consumes and what it puts out.
pub mod Reading
use mudit_m.Base.{
  ℕ, ◌≡◌, refl, sym, ap, ◌∙◌, some, List, [], ◌∷◌, ◌++◌, take, drop, take-append-drop,
}
use mathlib.Core.Path.{subst}
use mathlib.Core.List.{append_assoc, append-nil}
use mudit_m.Libs.{Libs, Inflated, inflated, problem}
use mudit_m.Posix.{Ret, count, Errno}
use mudit_m.Run.{Run, Fits, Fits-weaken}
use mudit_m.Endpoint.{Endpoint}
use mudit_m.Endpoint.Stream.{after_inflate}
use mudit_m.Endpoint.Arrivals.{to_come}

-- zlib's manual: a stream has consumed some bytes, and what it has put out is a first part of what
-- they decompress to.
pub record InflateCodes (L : Libs) : Type 1 where
  pub decompress : List ℕ → List ℕ
  pub Decoding : L.Inflater → (consumed produced : List ℕ) → Type 0
  pub inflate_begins : (z : L.Inflater) → L.inflate_init ≡ some z → Decoding z [] []
  pub inflate_moves :
      (z z' : L.Inflater) (consumed produced bytes output : List ℕ) (space used : ℕ)
      → Decoding z consumed produced
      → L.inflate z bytes space ≡ inflated z' used output
      → Decoding z' (consumed ++ take used bytes) (produced ++ output)
  pub inflate_fails :
      (z z' : L.Inflater) (consumed produced bytes output : List ℕ) (space used : ℕ) (errno : Errno)
      → Decoding z consumed produced
      → L.inflate z bytes space ≡ problem z' used output errno
      → Decoding z' (consumed ++ take used bytes) (produced ++ output)
  pub inflate_decodes :
      (z : L.Inflater) (consumed produced : List ℕ)
      → Decoding z consumed produced
      → (rest : List ℕ) × (decompress consumed ≡ produced ++ rest)

-- What a call has consumed and what it has left are what it was given.
still_there :
    (used : ℕ) (bytes later : List ℕ)
    → take used bytes ++ (drop used bytes ++ later) ≡ bytes ++ later
still_there used bytes later =
    sym (append_assoc (take used bytes) (drop used bytes) later)
    ∙ ap (λ t. t ++ later) (take-append-drop used bytes)

module _ (L : Libs) (codes : InflateCodes L) where
  -- A read: the stream has consumed some of the bytes that waited or were still to come, the rest is
  -- still there, and the bytes that were read are what it has put out, all but those that a failed
  -- call loses.
  pub record Inflow (consumed produced source bytes : List ℕ) (ret : Ret) (ep' : Endpoint L)
      : Type 0 where
    pub lost : List ℕ
    pub lossless : (n : ℕ) → ret ≡ count n → lost ≡ []
    pub state : L.Inflater
    pub waiting : List ℕ
    pub fed : List ℕ
    pub active : ep'.mccp_in ≡ some (record { state = state; next_in = waiting })
    pub decoding : codes.Decoding state (consumed ++ fed) (produced ++ (bytes ++ lost))
    pub conveyed : fed ++ (waiting ++ to_come ep'.wire.incoming) ≡ source

  abbrev pub InflowOf : (consumed produced source : List ℕ) → Ret × List ℕ × Endpoint L → Type 0
  InflowOf consumed produced source (ret, bytes, ep') =
      Inflow consumed produced source bytes ret ep'

  -- A call that has put nothing out, and what follows it.
  longer :
      (consumed produced more source bytes rest : List ℕ) (ret : Ret) (ep' : Endpoint L)
      → more ++ source ≡ rest
      → Inflow (consumed ++ more) (produced ++ []) source bytes ret ep'
      → Inflow consumed produced rest bytes ret ep'
  longer consumed produced more source bytes rest ret ep' e i = record {
    lost = i.lost;
    lossless = i.lossless;
    state = i.state;
    waiting = i.waiting;
    fed = more ++ i.fed;
    active = i.active;
    decoding =
        subst (λ t. codes.Decoding i.state t (produced ++ (bytes ++ i.lost)))
          (append_assoc consumed more i.fed)
          (subst
            (λ t. codes.Decoding i.state ((consumed ++ more) ++ i.fed) (t ++ (bytes ++ i.lost)))
            (append-nil produced) i.decoding);
    conveyed = append_assoc more i.fed _ ∙ ap (λ t. more ++ t) i.conveyed ∙ e;
  }

  -- A read that brings nothing.
  pub nothing :
      (z : L.Inflater) (consumed produced waiting : List ℕ) (ret : Ret) (ep : Endpoint L)
      → codes.Decoding z consumed produced
      → Inflow consumed produced
          (waiting ++ to_come ep.wire.incoming)
          []
          ret
          (record ep { mccp_in = some (record { state = z; next_in = waiting }) })
  nothing z consumed produced waiting ret ep d = record {
    lost = [];
    lossless = λ n e. refl;
    state = z;
    waiting = waiting;
    fed = [];
    active = refl;
    decoding =
        subst (λ t. codes.Decoding z t (produced ++ [])) (sym (append-nil consumed))
          (subst (λ t. codes.Decoding z consumed t) (sym (append-nil produced)) d);
    conveyed = refl;
  }

  pub after_inflate-Inflow :
      (again : L.Inflater → List ℕ → Endpoint L → Run (Ret × List ℕ × Endpoint L)) (z : L.Inflater)
      (consumed produced bytes : List ℕ) (n : ℕ) (ep : Endpoint L) (r : Inflated L.Inflater)
      → L.inflate z bytes n ≡ r
      → codes.Decoding z consumed produced
      → ((z' : L.Inflater) (consumed' produced' bytes' : List ℕ)
          → codes.Decoding z' consumed' produced'
          → Fits
              (InflowOf consumed' produced' (bytes' ++ to_come ep.wire.incoming))
              (again z' bytes' ep))
      → Fits
          (InflowOf consumed produced (bytes ++ to_come ep.wire.incoming))
          (after_inflate L again z bytes ep r)
  unfolding after_inflate
  after_inflate-Inflow again z consumed produced bytes n ep (problem z' used output errno) e d
        next =
      record {
        lost = output;
        lossless = λ k q. absurd (cc);
        state = z';
        waiting = drop used bytes;
        fed = take used bytes;
        active = refl;
        decoding = codes.inflate_fails z z' consumed produced bytes output n used errno d e;
        conveyed = still_there used bytes (to_come ep.wire.incoming);
      }
  after_inflate-Inflow again z consumed produced bytes n ep (inflated z' used []) e d next =
      Fits-weaken
        (InflowOf (consumed ++ take used bytes) (produced ++ [])
          (drop used bytes ++ to_come ep.wire.incoming))
        _ (again z' (drop used bytes) ep)
        (next z' (consumed ++ take used bytes) (produced ++ []) (drop used bytes)
          (codes.inflate_moves z z' consumed produced bytes [] n used d e))
        (λ (ret, out, ep') i.
          longer consumed produced (take used bytes) _ out _ ret ep'
            (still_there used bytes (to_come ep.wire.incoming)) i)
  after_inflate-Inflow again z consumed produced bytes n ep (inflated z' used (b ∷ output)) e d
        next =
      record {
        lost = [];
        lossless = λ k q. refl;
        state = z';
        waiting = drop used bytes;
        fed = take used bytes;
        active = refl;
        decoding =
            subst (λ t. codes.Decoding z' (consumed ++ take used bytes) (produced ++ t))
              (sym (append-nil (b ∷ output)))
              (codes.inflate_moves z z' consumed produced bytes (b ∷ output) n used d e);
        conveyed = still_there used bytes (to_come ep.wire.incoming);
      }
