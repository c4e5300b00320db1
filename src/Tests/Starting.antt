-- ===== src/Tests/Starting.antt =====
-- The theorems on `main` (muditm.c), the PROXY line and the handler of fatal signals, applied.
use mudit_m.Base.{
  ℕ, ◌≡◌, refl, true, false, none, some, List, [], ◌∷◌, ◌++◌, replicate, arith, codes,
  if◌then◌else◌, ◌||◌,
}
use mudit_m.Posix.{arrived, hangup}
use mudit_m.Run.{ok, Returns}
use mudit_m.Handlers.Bounds.{IsSound}
use mudit_m.Conf.{get_conf_string}
use mudit_m.Endpoint.{Endpoint, MccpMode, mccp_ignore, mccp_disable, mccp_enable}
use mudit_m.Endpoint.Io.{starts, mapped, unmap}
use mudit_m.Endpoint.Delivery.{outbound}
use mudit_m.Endpoint.Header.{header_text}
use mudit_m.Endpoint.Header.Reading.{read_line, read_line-header_text}
use mudit_m.Handlers.Patterns.{
  compile_patterns, print_patterns, print_text, mnes_game_patterns, mnes_client_patterns,
  mccp_game_patterns, mccp_client_patterns,
}
use mudit_m.Handlers.Patterns.Text.{alternation}
use mudit_m.Proxy.Start.{Compiles}
use mudit_m.Main.{Settings, settings_of}
use mudit_m.Main.Connect.{Candidate, no_socket, refuses, connects, game_connect}
use mudit_m.Main.Connect.Sockets.{as_list, is_some, opened, any_connects, game_connect_closes}
use mudit_m.Main.Session.{Circumstances, announce, serve_child}
use mudit_m.Main.Session.Opening.{announce_read}
use mudit_m.Main.Session.Opening.Stops.{OwnPatternsCompile}
use mudit_m.Main.Session.Unreached.{ToldOf, serve_child_unreached}
use mudit_m.Demon.Fatal.{sigbus, fatal_handler, fatal_line, fatal_handler_lem}
use mudit_m.Tests.Toy.{toy, toy_inside, groups}
use mudit_m.Tests.Sides.{side, switched, epoch, side-IsSound}
use mudit_m.Tests.Proxying.{rounds}

abbrev client_address : List ℕ
client_address = codes "::ffff:10.0.0.7"

abbrev proxy_address : List ℕ
proxy_address = codes "::ffff:10.0.0.1"

read_line-header_text_example :
    read_line (header_text true (codes "10.0.0.7") (codes "10.0.0.1") 51234 4143) ≡ record {
      family = codes "TCP4";
      source = codes "10.0.0.7";
      destination = codes "10.0.0.1";
      source_port = 51234;
      destination_port = 4143;
      ending = 13 ∷ 10 ∷ [];
    }
read_line-header_text_example =
    read_line-header_text true (codes "10.0.0.7") (codes "10.0.0.1") 51234 4143 (ground arith)
      (ground arith)

fatal_handler_lem_example :
    fatal_handler sigbus false 4242 ≡ some (fatal_line sigbus false 4242 ++ (10 ∷ []))
fatal_handler_lem_example = fatal_handler_lem sigbus false 4242 (omega arith)

abbrev addresses : List Candidate
addresses = refuses 5 ∷ no_socket ∷ connects 6 ∷ refuses 7 ∷ []

game_connect_closes_example :
    ((game_connect (some addresses)).1 ++ as_list (game_connect (some addresses)).0
      ≡ opened addresses)
    × (is_some (game_connect (some addresses)).0 ≡ any_connects addresses)
game_connect_closes_example = game_connect_closes addresses

abbrev from_address : Endpoint toy
from_address = record (side [] []) {
  patterns = [];
  wire = record {
    incoming = arrived (codes "hi bye") ∷ hangup ∷ [];
    outgoing = [];
    sent = [];
    peer = some (client_address, 51234);
    here = some (proxy_address, 4143);
  };
}

from_address-IsSound : IsSound toy from_address
from_address-IsSound =
    let s = side-IsSound [] [] (omega arith) in
    record { in_valid = s.in_valid; out_valid = s.out_valid }

announce_read_example :
    Returns
      (λ g. read_line (outbound toy g) ≡ record {
        family =
            if starts mapped client_address || starts mapped proxy_address
            then codes "TCP4"
            else codes "TCP6";
        source = unmap client_address;
        destination = unmap proxy_address;
        source_port = 51234;
        destination_port = 4143;
        ending = 13 ∷ 10 ∷ [];
      })
      (announce toy true from_address (side [] []))
announce_read_example =
    announce_read toy from_address (side [] []) client_address proxy_address 51234 4143 refl refl
      (ground arith) (ground arith) (side-IsSound [] [] (omega arith)) refl (omega arith)
      (omega arith) (omega arith) refl refl

game_compiled :
    (mode : MccpMode)
    → compile_patterns toy (mnes_game_patterns ++ mccp_game_patterns mode)
      ≡ ok (groups (alternation (mnes_game_patterns ++ mccp_game_patterns mode)))
unfolding compile_patterns print_patterns print_text
game_compiled mccp_ignore = refl
game_compiled mccp_disable = refl
game_compiled mccp_enable = refl

client_compiled :
    (mode : MccpMode)
    → compile_patterns toy (mnes_client_patterns ++ mccp_client_patterns mode)
      ≡ ok (groups (alternation (mnes_client_patterns ++ mccp_client_patterns mode)))
unfolding compile_patterns print_patterns print_text
client_compiled mccp_ignore = refl
client_compiled mccp_disable = refl
client_compiled mccp_enable = refl

game-Compiles : (mode : MccpMode) → Compiles toy (mnes_game_patterns ++ mccp_game_patterns mode)
game-Compiles mode = record {
  code = groups (alternation (mnes_game_patterns ++ mccp_game_patterns mode));
  compiled = game_compiled mode;
  inside = toy_inside (groups (alternation (mnes_game_patterns ++ mccp_game_patterns mode)));
}

client-Compiles :
    (mode : MccpMode) → Compiles toy (mnes_client_patterns ++ mccp_client_patterns mode)
client-Compiles mode = record {
  code = groups (alternation (mnes_client_patterns ++ mccp_client_patterns mode));
  compiled = client_compiled mode;
  inside = toy_inside (groups (alternation (mnes_client_patterns ++ mccp_client_patterns mode)));
}

pub toy_own : OwnPatternsCompile toy
toy_own = record { games = game-Compiles; clients = client-Compiles }

-- A game that can be reached.
abbrev pub reached : Circumstances
reached = record {
  malloc = λ n. replicate n 0;
  now = epoch;
  context = record {
    certificate_read = true;
    key_read = true;
    chain_read = true;
    paths_set = true;
  };
  client_handshake = true;
  addresses = some addresses;
  game_wire = record {
    incoming = arrived (codes "welcome") ∷ hangup ∷ [];
    outgoing = [];
    sent = [];
    peer = none;
    here = none;
  };
  game_handshake = true;
  nonblocking = (true, true);
  rounds = rounds;
}

abbrev settings : Settings
settings = settings_of (switched true) false

abbrev unreachable : Circumstances
unreachable = record reached { addresses = none }

serve_child_unreached_example :
    Returns
      (ToldOf toy from_address)
      (serve_child toy (switched true) settings unreachable from_address)
unfolding settings_of get_conf_string game_connect
serve_child_unreached_example =
    serve_child_unreached toy (switched true) settings unreachable from_address refl refl refl refl
