-- ===== src/Main/Connect.antt =====
-- The sockets and TLS contexts of muditm.c and proxy.c: `new_mommie`, `configure_context`,
-- `game_connect` and `ssl_start_endpoint`. What each system or library call answers is an argument.
pub mod Sockets
use mudit_m.Base.{
  ℕ, Bool, true, false, ◌&&◌, Option, none, some, List, [], ◌∷◌, ◌++◌, if◌then◌else◌,
}
use mudit_m.Libs.{Libs}
use mudit_m.Run.{Run, ok, exits, ◌>>=◌}
use mudit_m.Endpoint.{Endpoint}

-- Nothing to return.
abbrev pub Done : Type 0
Done = Unit

-- A call that ends the program if it fails.
abbrev pub require : Bool → Run Done
require true = ok tt
require false = exits

-- The answers to the calls of `new_mommie` that are looked at.
pub record Listening : Type 0 where
  pub socket : Option ℕ
  pub reuseaddr_set : Bool
  pub linger_set : Bool
  pub bound : Bool
  pub listens : Bool

abbrev pub open_socket : Option ℕ → Run ℕ
open_socket none = exits
open_socket (some s) = ok s

unfoldable pub new_mommie : Listening → Run ℕ
new_mommie l = do
  s ← open_socket l.socket
  _ ← require l.reuseaddr_set
  _ ← require l.linger_set
  _ ← require l.bound
  _ ← require l.listens
  ok s

-- The answers to the calls of `configure_context`; `chain` is empty if none is configured.
pub record Context : Type 0 where
  pub certificate_read : Bool
  pub key_read : Bool
  pub chain_read : Bool
  pub paths_set : Bool

unfoldable pub configure_context : Context → (chain : List ℕ) → Run Done
configure_context c [] = do
  _ ← require c.certificate_read
  _ ← require c.key_read
  require c.paths_set
configure_context c (b ∷ chain) = do
  _ ← require c.certificate_read
  _ ← require c.key_read
  _ ← require c.chain_read
  require c.paths_set

-- An address of the game, by what `socket` and `connect` answer for it.
pub data Candidate : Type 0 where
  no_socket : Candidate
  refuses connects : (server_sock : ℕ) → Candidate

-- The loop over the addresses: the socket that is connected, and those that were closed.
abbrev pub try_all : List Candidate → Option ℕ × List ℕ
try_all [] = (none, [])
try_all (no_socket ∷ rest) = try_all rest
try_all (refuses s ∷ rest) = let r = try_all rest in (r.0, s ∷ r.1)
try_all (connects s ∷ rest) = (some s, [])

-- `none` is a failure of `getaddrinfo`.
unfoldable pub game_connect : Option (List Candidate) → Option ℕ × List ℕ
game_connect none = (none, [])
game_connect (some candidates) = try_all candidates

module _ (L : Libs) where
  -- `handshake` is whether `SSL_connect` or `SSL_accept` returns more than 0.
  unfoldable pub ssl_start_endpoint :
      (ctx : Bool) (handshake : Bool) → Endpoint L → Run (Bool × Endpoint L)
  ssl_start_endpoint false handshake ep = exits
  ssl_start_endpoint true handshake ep = ok (handshake, record ep { ssl = true })
