-- ===== src/Main/Session.antt =====
-- The rest of `main` of muditm.c once a client is there: TLS, the connection to the game, the line
-- with the addresses, and the proxy. What it logs of the certificate is in Certcheck.
pub mod Opening
pub mod Unreached
use mudit_m.Base.{ℕ, Bool, true, false, Option, none, some, List, [], ◌∷◌, codes, if◌then◌else◌}
use mudit_m.Libs.{Libs}
use mudit_m.Posix.{Wire}
use mudit_m.Run.{Run, ok, ◌>>=◌}
use mudit_m.Iostats.{Timeval}
use mudit_m.Iobuf.{push_iobuf}
use mudit_m.Conf.{KeyFile, configure_compression}
use mudit_m.Endpoint.{Endpoint, new_endpoint}
use mudit_m.Endpoint.Io.{write_endpoint, flush_endpoint}
use mudit_m.Endpoint.Header.{stunnel_proxy_header1}
use mudit_m.Main.{Settings, is_ssl, uses_ssl}
use mudit_m.Main.Connect.{
  Done, Context, configure_context, Candidate, game_connect, ssl_start_endpoint,
}
use mudit_m.Proxy.Session.{Round, Progress, muditm_proxy}

-- What the system answers to a child of the listener.
pub record Circumstances : Type 0 where
  pub malloc : ℕ → List ℕ
  pub now : Timeval
  pub context : Context
  pub client_handshake : Bool
  pub addresses : Option (List Candidate)
  pub game_wire : Wire
  pub game_handshake : Bool
  pub nonblocking : Bool × Bool
  pub rounds : List Round

-- How a child ends, with what it has made of its endpoints.
pub data Ending (L : Libs) : Type 0 where
  client_not_secure : (client : Endpoint L) → Ending L
  no_game : (client : Endpoint L) → Ending L
  game_not_secure : (client game : Endpoint L) → Ending L
  proxied : Progress L → Ending L

-- The replies to the client if there is no game to talk to.
abbrev pub no_connection : List ℕ
no_connection = codes "Couldn't connect to server!\r\n"

abbrev pub no_secure_connection : List ℕ
no_secure_connection = codes "Couldn't ssl to to server!\r\n"

module _ (L : Libs) where
  -- `ctx` is set if one of the sides is secured.
  abbrev pub load_context : Settings → Circumstances → Bool → Run Done
  load_context s c false = ok tt
  load_context s c true = configure_context c.context s.chain_file

  -- A side that is to be secured starts TLS.
  abbrev pub secure_if : Bool → (ctx handshake : Bool) → Endpoint L → Run (Bool × Endpoint L)
  secure_if false ctx handshake ep = ok (true, ep)
  secure_if true ctx handshake ep = ssl_start_endpoint L ctx handshake ep

  -- "perhaps send the PROXY header."
  unfoldable pub announce : Bool → Endpoint L → Endpoint L → Run (Endpoint L)
  announce false client game = ok game
  announce true client game = do
    (count, out) ← stunnel_proxy_header1 L client game.iobuf_out
    (_, game') ← flush_endpoint L (record game { iobuf_out = push_iobuf out count })
    ok game'

  -- The endpoint of the game, connected.
  abbrev pub game_endpoint : Circumstances → ℕ → Endpoint L
  game_endpoint c server_sock = record (new_endpoint L c.malloc c.now c.game_wire (some "Game")) {
    socket = some server_sock;
  }

  -- From the connected game to the end of the proxy.
  unfoldable pub talk :
      KeyFile → Settings → Circumstances → Endpoint L → Endpoint L → Run (Ending L)
  talk gkf s c client game = do
    game1 ← announce s.stunnelproxy client game
    progress ←
        muditm_proxy L gkf c.now c.nonblocking c.rounds client
          (configure_compression L game1 s.game_compression)
    ok (proxied progress)

  -- What becomes of the game's TLS.
  abbrev pub with_secured :
      KeyFile → Settings → Circumstances → Endpoint L → Bool × Endpoint L → Run (Ending L)
  with_secured gkf s c client (true, game) = talk gkf s c client game
  with_secured gkf s c client (false, game) = do
    (_, client') ← write_endpoint L client no_secure_connection
    ok (game_not_secure client' game)

  -- What becomes of the connection to the game.
  abbrev pub with_game : KeyFile → Settings → Circumstances → Endpoint L → Option ℕ → Run (Ending L)
  with_game gkf s c client none = do
    (_, client') ← write_endpoint L client no_connection
    ok (no_game client')
  with_game gkf s c client (some server_sock) = do
    _ ← load_context s c (is_ssl s.game_security)
    secured ←
        secure_if (is_ssl s.game_security) (uses_ssl s) c.game_handshake
          (game_endpoint c server_sock)
    with_secured gkf s c client secured

  -- What becomes of the client's TLS.
  abbrev pub with_client : KeyFile → Settings → Circumstances → Bool × Endpoint L → Run (Ending L)
  with_client gkf s c (false, client) = ok (client_not_secure client)
  with_client gkf s c (true, client) =
      with_game gkf s c (configure_compression L client s.client_compression)
        (game_connect c.addresses).0

  -- `main` behind `demonize`, in the process that has the client.
  unfoldable pub serve_child : KeyFile → Settings → Circumstances → Endpoint L → Run (Ending L)
  serve_child gkf s c client = do
    _ ← load_context s c (uses_ssl s)
    secured ← secure_if (is_ssl s.client_security) (uses_ssl s) c.client_handshake client
    with_client gkf s c secured
