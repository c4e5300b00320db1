-- ===== src/Main/Session/Unreached.antt =====
-- What `main` (muditm.c) tells the client if the game cannot be reached.
use mudit_m.Base.{
  ℕ, ◌≡◌, refl, Bool, true, false, ◌||◌, none, List, [], ◌++◌, if◌then◌else◌, same_text, codes,
}
use mudit_m.Libs.{Libs}
use mudit_m.Run.{Returns}
use mudit_m.Conf.{KeyFile, configure_compression}
use mudit_m.Endpoint.{Endpoint, MccpMode}
use mudit_m.Endpoint.Compressed.{write_endpoint_sock_open}
use mudit_m.Endpoint.Delivery.{write_endpoint_plain}
use mudit_m.Main.{Settings, is_ssl, uses_ssl}
use mudit_m.Main.Connect.{game_connect}
use mudit_m.Main.Session.{Circumstances, Ending, no_game, no_connection, serve_child}

-- The child ends with no game, and the client was sent the reply and nothing else.
abbrev pub ToldOf : (L : Libs) → Endpoint L → Ending L → Type 0
ToldOf L client (no_game client') = client'.wire.sent ≡ client.wire.sent ++ no_connection
ToldOf L client _ = ⊥

configured_sides :
    (L : Libs) (ep : Endpoint L) (value : List ℕ)
    → (mode : MccpMode) × (configure_compression L ep value ≡ record ep { mccp_mode = mode })
unfolding configure_compression
configured_sides L ep value =
    which (same_text value (codes "ignore")) (same_text value (codes "disable"))
      (same_text value (codes "enable"))
  where
    which :
        (first second third : Bool)
        → (mode : MccpMode) × ((if first
              then record ep { mccp_mode = MccpMode.mccp_ignore }
              else if second
              then record ep { mccp_mode = MccpMode.mccp_disable }
              else if third
              then record ep { mccp_mode = MccpMode.mccp_enable }
              else ep)
            ≡ record ep { mccp_mode = mode })
    which true second third = (MccpMode.mccp_ignore, refl)
    which false true third = (MccpMode.mccp_disable, refl)
    which false false true = (MccpMode.mccp_enable, refl)
    which false false false = (ep.mccp_mode, refl)

neither : (a b : Bool) → (a || b) ≡ false → (a ≡ false) × (b ≡ false)
neither true b h = absurd (cc)
neither false b h = (refl, h)

module _ (L : Libs) (gkf : KeyFile) (s : Settings) (c : Circumstances) (client : Endpoint L) where
  -- No side is to be secured, no address of the game connects, and the client has no compression
  -- and an open socket: the child returns with no game, and has sent the client the reply that
  -- there is no connection, behind what it was sent before, and nothing else.
  pub serve_child_unreached :
      uses_ssl s ≡ false
      → (game_connect c.addresses).0 ≡ none
      → client.mccp_out ≡ none
      → client.wire.outgoing ≡ []
      → Returns (ToldOf L client) (serve_child L gkf s c client)
  unfolding serve_child
  serve_child_unreached plain unreached uncompressed open_wire =
      let (mode, e) = configured_sides L client s.client_compression in
      rw
        (
          plain,
          (neither (is_ssl s.client_security) (is_ssl s.game_security) plain).0,
          e,
          unreached,
          write_endpoint_plain L (record client { mccp_mode = mode }) no_connection uncompressed,
          write_endpoint_sock_open L (record client { mccp_mode = mode }) no_connection open_wire,
        )
        refl
