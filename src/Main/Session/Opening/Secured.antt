-- ===== src/Main/Session/Opening/Secured.antt =====
-- The steps of `main` (muditm.c) that ready a side for the proxy: the TLS context, the start of TLS and
-- the configured compression.
use mudit_m.Base.{
  ℕ, ◌≡◌, refl, sym, Bool, true, false, List, [], ◌∷◌, if◌then◌else◌, same_text, codes,
}
use mathlib.Core.Path.{subst}
use mudit_m.Libs.{Libs}
use mudit_m.Run.{Run, ◌>>=◌, Stops, Stops-bind}
use mudit_m.Conf.{configure_compression}
use mudit_m.Endpoint.{Endpoint, MccpMode, mccp_ignore, mccp_disable, mccp_enable}
use mudit_m.Endpoint.Reads.{Settles}
use mudit_m.Handlers.Bounds.{IsSound}
use mudit_m.Proxy.Start.{IsFresh}
use mudit_m.Main.{Settings}
use mudit_m.Main.Connect.{Done, Context, configure_context, require, ssl_start_endpoint}
use mudit_m.Main.Session.{Circumstances, load_context, secure_if}

-- A side with no patterns yet.
pub record IsBare (L : Libs) (ep : Endpoint L) : Type 0 where
  pub fresh : IsFresh L ep
  pub bare : ep.patterns ≡ []

require-Stops : (b : Bool) → Stops (λ d. Unit) (require b)
require-Stops true = tt
require-Stops false = tt

require_then :
    (b : Bool) (next : Run Done)
    → Stops (λ d. Unit) next
    → Stops (λ d. Unit) (require b >>= λ d. next)
require_then b next h = Stops-bind (λ d. Unit) _ (require b) _ (require-Stops b) (λ d u. h)

configure_context-Stops :
    (c : Context) (chain : List ℕ) → Stops (λ d. Unit) (configure_context c chain)
unfolding configure_context
configure_context-Stops c [] =
    require_then c.certificate_read _ (require_then c.key_read _ (require-Stops c.paths_set))
configure_context-Stops c (b ∷ chain) =
    require_then c.certificate_read _
      (require_then c.key_read _ (require_then c.chain_read _ (require-Stops c.paths_set)))

module _ (L : Libs) where
  pub load_context-Stops :
      (s : Settings) (c : Circumstances) (b : Bool) → Stops (λ d. Unit) (load_context L s c b)
  load_context-Stops s c false = tt
  load_context-Stops s c true = configure_context-Stops c.context s.chain_file

  in_mode :
      (ep : Endpoint L) (mode : MccpMode) → IsBare L ep → IsBare L (record ep { mccp_mode = mode })
  in_mode ep mode b = record {
    fresh = record {
      sound = record { in_valid = b.fresh.sound.in_valid; out_valid = b.fresh.sound.out_valid };
      live = b.fresh.live;
    };
    bare = b.bare;
  }

  -- Each way of the chain of tests.
  chosen :
      (first second third : Bool) (ep : Endpoint L)
      → IsBare L ep
      → IsBare L (
          if first
          then record ep { mccp_mode = mccp_ignore }
          else if second
          then record ep { mccp_mode = mccp_disable }
          else if third
          then record ep { mccp_mode = mccp_enable }
          else ep)
  chosen true second third ep b = in_mode ep mccp_ignore b
  chosen false true third ep b = in_mode ep mccp_disable b
  chosen false false true ep b = in_mode ep mccp_enable b
  chosen false false false ep b = b

  pub configure_compression-IsBare :
      (ep : Endpoint L) (value : List ℕ) → IsBare L ep → IsBare L (configure_compression L ep value)
  unfolding configure_compression
  configure_compression-IsBare ep value b =
      chosen (same_text value (codes "ignore")) (same_text value (codes "disable"))
        (same_text value (codes "enable")) ep b

  -- What TLS, if it is to be started, leaves of a plain side.
  pub record Secured (wanted handshake : Bool) (ep : Endpoint L) (r : Bool × Endpoint L)
      : Type 0 where
    pub is_bare : IsBare L r.1
    pub same_out : r.1.iobuf_out ≡ ep.iobuf_out
    pub cause : r.0 ≡ false → (wanted ≡ true) × (handshake ≡ false)
    pub proof : r.0 ≡ true → wanted ≡ true → handshake ≡ true

  pub secure_if-Stops :
      (b ctx handshake : Bool) (ep : Endpoint L)
      → IsSound L ep
      → ep.ssl ≡ false
      → ep.patterns ≡ []
      → Settles b ep.wire.incoming
      → Stops (Secured b handshake ep) (secure_if L b ctx handshake ep)
  unfolding ssl_start_endpoint
  secure_if-Stops false ctx handshake ep s plain bare h = record {
    is_bare = record {
      fresh = record { sound = s; live = subst (λ b. Settles b ep.wire.incoming) (sym plain) h };
      bare = bare;
    };
    same_out = refl;
    cause = λ e. absurd (cc);
    proof = λ e w. absurd (cc);
  }
  secure_if-Stops true false handshake ep s plain bare h = tt
  secure_if-Stops true true handshake ep s plain bare h = record {
    is_bare = record {
      fresh = record {
        sound = record { in_valid = s.in_valid; out_valid = s.out_valid };
        live = h;
      };
      bare = bare;
    };
    same_out = refl;
    cause = λ e. (refl, e);
    proof = λ e w. e;
  }
