-- ===== src/Main/Session/Opening/Stops.antt =====
-- `main` (muditm.c) in the child that has a client, up to the end of the proxy.
use mudit_m.Base.{
  ℕ, ◌<◌, ◌≡◌, refl, sym, ap, ◌∙◌, Bool, true, false, Option, none, some, List, [], ◌++◌, length,
  arith,
}
use mathlib.Core.Path.{subst}
use mudit_m.Libs.{Libs, DeflateLaws, InflateLaws}
use mudit_m.Run.{ok, ◌>>=◌, Stops, Stops-bind, Returns-Stops, Bounded-Stops}
use mudit_m.Iobuf.{Iobuf, new_iobuf}
use mudit_m.Conf.{KeyFile, configure_compression}
use mudit_m.Endpoint.{Endpoint, Pattern, MccpMode, new_endpoint}
use mudit_m.Endpoint.Io.{write_endpoint}
use mudit_m.Endpoint.Frame.{Frame, write_endpoint-Frame}
use mudit_m.Endpoint.Reads.{Settles}
use mudit_m.Handlers.Bounds.{IsSound, Sent}
use mudit_m.Handlers.Patterns.{
  mnes_game_patterns, mnes_client_patterns, mccp_game_patterns, mccp_client_patterns,
}
use mudit_m.Proxy.Session.{muditm_proxy}
use mudit_m.Proxy.Loop.{ReadyProgress}
use mudit_m.Proxy.Start.{Compiles, muditm_proxy-Ready}
use mudit_m.Main.{Settings, is_ssl, uses_ssl}
use mudit_m.Main.Connect.{game_connect}
use mudit_m.Main.Session.{
  Circumstances, Ending, client_not_secure, no_game, game_not_secure, proxied, no_connection,
  no_secure_connection, load_context, secure_if, announce, game_endpoint, talk, with_secured,
  with_game, with_client, serve_child,
}
use mudit_m.Main.Session.Opening.{new_endpoint-IsSound, announce-Sent}
use mudit_m.Main.Session.Opening.Secured.{
  IsBare, Secured, load_context-Stops, configure_compression-IsBare, secure_if-Stops,
}

-- PCRE2 compiles the program's own patterns, whatever is configured for compression.
pub record OwnPatternsCompile (L : Libs) : Type 0 where
  pub games : (mode : MccpMode) → Compiles L (mnes_game_patterns ++ mccp_game_patterns mode)
  pub clients : (mode : MccpMode) → Compiles L (mnes_client_patterns ++ mccp_client_patterns mode)

-- The client's handshake succeeded, if there had to be one; there is a socket to the game; and the
-- game's handshake succeeded, if there had to be one.
abbrev pub ClientSecure : Settings → Circumstances → Type 0
ClientSecure s c = is_ssl s.client_security ≡ true → c.client_handshake ≡ true

abbrev pub Connected : Circumstances → Type 0
Connected c = (sock : ℕ) × ((game_connect c.addresses).0 ≡ some sock)

abbrev pub GameSecure : Settings → Circumstances → Type 0
GameSecure s c = is_ssl s.game_security ≡ true → c.game_handshake ≡ true

-- Each end of the child has its cause: every test before it went well, the one that it stands for
-- failed, and the proxy left its sides in order.
abbrev pub HasCause : (L : Libs) → Settings → Circumstances → Ending L → Type 0
HasCause L s c (client_not_secure client) =
    (is_ssl s.client_security ≡ true) × (c.client_handshake ≡ false)
HasCause L s c (no_game client) = ClientSecure s c × ((game_connect c.addresses).0 ≡ none)
HasCause L s c (game_not_secure client game) =
    ClientSecure s c × Connected c × (is_ssl s.game_security ≡ true) × (c.game_handshake ≡ false)
HasCause L s c (proxied progress) =
    ClientSecure s c × Connected c × GameSecure s c × ReadyProgress L progress

module _ (L : Libs) (deflates : DeflateLaws L) (inflates : InflateLaws L)
    (own : OwnPatternsCompile L) (gkf : KeyFile) (s : Settings) (c : Circumstances) where
  listed :
      (patterns rest : List Pattern)
      → patterns ≡ []
      → Compiles L rest
      → Compiles L (patterns ++ rest)
  listed patterns rest e h = subst (λ p. Compiles L (p ++ rest)) (sym e) h

  proxied-Stops :
      (client game : Endpoint L)
      → IsBare L client
      → IsBare L game
      → ClientSecure s c
      → Connected c
      → GameSecure s c
      → Stops (HasCause L s c) (
          muditm_proxy L gkf c.now c.nonblocking c.rounds client game >>= λ progress.
          ok (proxied progress))
  proxied-Stops client game bc bg hc hs hg =
      let m = muditm_proxy L gkf c.now c.nonblocking c.rounds client game in
      Stops-bind (ReadyProgress L) _ m _
        (Bounded-Stops (ReadyProgress L) m (
          muditm_proxy-Ready L deflates inflates gkf c.now c.nonblocking c.rounds client game
            bc.fresh bg.fresh (listed client.patterns _ bc.bare (own.clients client.mccp_mode))
            (listed game.patterns _ bg.bare (own.games game.mccp_mode))))
        (λ progress r. (hc, hs, hg, r))

  talk-Stops :
      (client game : Endpoint L)
      → IsBare L client
      → IsBare L game
      → ClientSecure s c
      → Connected c
      → GameSecure s c
      → game.iobuf_out.tail ≡ 0
      → 0 < game.iobuf_out.length
      → Stops (HasCause L s c) (talk L gkf s c client game)
  unfolding talk
  talk-Stops client game bc bg hc hs hg empty room =
      Stops-bind (Sent L game) _ (announce L s.stunnelproxy client game) _
        (Returns-Stops (Sent L game) (announce L s.stunnelproxy client game)
          (announce-Sent L deflates s.stunnelproxy client game bg.fresh.sound empty room))
        (λ game1 k.
          let b = configure_compression-IsBare L game1 s.game_compression (record {
            fresh = record { sound = k.sound; live = k.rules.answers bg.fresh.live };
            bare = k.rules.same_patterns ∙ bg.bare;
          }) in
          proxied-Stops client (configure_compression L game1 s.game_compression) bc b hc hs hg)

  -- A reply to the client, whose end is known.
  replied :
      (client : Endpoint L) (text : List ℕ) (ending : Endpoint L → Ending L)
      → ((client' : Endpoint L) → HasCause L s c (ending client'))
      → Stops
          (HasCause L s c)
          (write_endpoint L client text >>= λ (ret, client'). ok (ending client'))
  replied client text ending h =
      Stops-bind (λ r. Frame L client r.1) _ (write_endpoint L client text) _
        (Returns-Stops (λ r. Frame L client r.1) (write_endpoint L client text)
          (write_endpoint-Frame L deflates client text))
        (λ r k. h r.1)

  with_secured-Stops :
      (client : Endpoint L) (game0 : Endpoint L) (r : Bool × Endpoint L)
      → IsBare L client
      → ClientSecure s c
      → Connected c
      → game0.iobuf_out.tail ≡ 0
      → 0 < game0.iobuf_out.length
      → Secured L (is_ssl s.game_security) c.game_handshake game0 r
      → Stops (HasCause L s c) (with_secured L gkf s c client r)
  with_secured-Stops client game0 (true, game) bc hc hs empty room k =
      talk-Stops client game bc k.is_bare hc hs (k.proof refl) (ap (λ b. b.tail) k.same_out ∙ empty)
        (subst (λ (b : Iobuf). 0 < b.length) (sym k.same_out) room)
  with_secured-Stops client game0 (false, game) bc hc hs empty room k =
      replied client no_secure_connection (λ client'. game_not_secure client' game)
        (λ client'. (hc, hs, (k.cause refl).0, (k.cause refl).1))

  with_game-Stops :
      (client : Endpoint L) (server_sock : Option ℕ)
      → IsBare L client
      → ClientSecure s c
      → ((n : ℕ) → length (c.malloc n) ≡ n)
      → Settles (is_ssl s.game_security) c.game_wire.incoming
      → (server_sock ≡ (game_connect c.addresses).0)
      → Stops (HasCause L s c) (with_game L gkf s c client server_sock)
  unfolding new_endpoint new_iobuf
  with_game-Stops client none bc hc m h e =
      replied client no_connection (λ client'. no_game client') (λ client'. (hc, sym e))
  with_game-Stops client (some server_sock) bc hc m h e =
      let sound = new_endpoint-IsSound L c.malloc c.now c.game_wire (some "Game") m in
      Stops-bind (λ d. Unit) _ (load_context L s c (is_ssl s.game_security)) _
        (load_context-Stops L s c (is_ssl s.game_security))
        (λ d u.
          Stops-bind
            (Secured L (is_ssl s.game_security) c.game_handshake (game_endpoint L c server_sock)) _
            (secure_if L (is_ssl s.game_security) (uses_ssl s) c.game_handshake
              (game_endpoint L c server_sock))
            _
            (secure_if-Stops L (is_ssl s.game_security) (uses_ssl s) c.game_handshake
              (game_endpoint L c server_sock)
              (record { in_valid = sound.in_valid; out_valid = sound.out_valid }) refl refl h)
            (λ r k.
              with_secured-Stops client (game_endpoint L c server_sock) r bc hc (server_sock, sym e)
                refl (omega arith) k))

  with_client-Stops :
      (client0 : Endpoint L) (r : Bool × Endpoint L)
      → ((n : ℕ) → length (c.malloc n) ≡ n)
      → Settles (is_ssl s.game_security) c.game_wire.incoming
      → Secured L (is_ssl s.client_security) c.client_handshake client0 r
      → Stops (HasCause L s c) (with_client L gkf s c r)
  with_client-Stops client0 (false, client) m h k = k.cause refl
  with_client-Stops client0 (true, client) m h k =
      with_game-Stops (configure_compression L client s.client_compression)
        (game_connect c.addresses).0
        (configure_compression-IsBare L client s.client_compression k.is_bare) (k.proof refl) m h
        refl

  -- A new client with valid buffers and no patterns, any key file, settings, addresses and peers,
  -- of which those under TLS hang up in the end, libraries that keep their promises, and a
  -- `malloc` that gives what it is asked for: the child that `main` runs for the client comes to an
  -- end; if it ends without a failed setup and without a message that has no space in an output
  -- buffer, its end has its cause.
  pub serve_child-Stops :
      (client : Endpoint L)
      → IsSound L client
      → client.ssl ≡ false
      → client.patterns ≡ []
      → Settles (is_ssl s.client_security) client.wire.incoming
      → Settles (is_ssl s.game_security) c.game_wire.incoming
      → ((n : ℕ) → length (c.malloc n) ≡ n)
      → Stops (HasCause L s c) (serve_child L gkf s c client)
  unfolding serve_child
  serve_child-Stops client sound plain bare hc hg m =
      Stops-bind (λ d. Unit) _ (load_context L s c (uses_ssl s)) _
        (load_context-Stops L s c (uses_ssl s))
        (λ d u.
          Stops-bind (Secured L (is_ssl s.client_security) c.client_handshake client) _
            (secure_if L (is_ssl s.client_security) (uses_ssl s) c.client_handshake client) _
            (secure_if-Stops L (is_ssl s.client_security) (uses_ssl s) c.client_handshake client
              sound plain bare hc)
            (λ r k. with_client-Stops client r m hg k))
