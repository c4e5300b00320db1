-- ===== src/Tests/Sides.antt =====
-- The sides of the tests: buffers of 64 bytes, open sockets, and patterns that are two literals.
use mudit_m.Base.{
  ℕ, ◌-◌, ◌≤◌, refl, Bool, true, false, none, some, List, [], ◌∷◌, ◌++◌, length, replicate,
  length-replicate, length-append, arith, codes,
}
use mudit_m.Iobuf.{Iobuf}
use mudit_m.Iobuf.Bounds.{IsValid}
use mudit_m.Iostats.{Timeval, IostatCounter, IostatData}
use mudit_m.Posix.{ReadEvent}
use mudit_m.Conf.{KeyFile}
use mudit_m.Endpoint.{Endpoint, Pattern, PatternAction, mccp_disable, nego_none}
use mudit_m.Handlers.Bounds.{IsSound}
use mudit_m.Proxy.Bounds.{HasRules}
use mudit_m.Proxy.Loop.{IsReady}
use mudit_m.Tests.Toy.{toy, toy_inside}

abbrev pub buffer : List ℕ → Iobuf
buffer bytes = record {
  block = bytes ++ replicate (64 - length bytes) 0;
  length = 64;
  tail = length bytes;
}

abbrev pub epoch : Timeval
epoch = record { tv_sec = 0; tv_usec = 0 }

abbrev no_bytes : IostatCounter
no_bytes = record { ts = epoch; bytes_in = 0; bytes_out = 0 }

abbrev no_traffic : IostatData
no_traffic = record { lifetime = no_bytes; checkpoint = no_bytes; rate = no_bytes }

abbrev pub hi_or_bye : List (List ℕ)
hi_or_bye = codes "hi" ∷ codes "bye" ∷ []

abbrev pub noting : List Pattern
noting =
    record { pat = codes "hi"; action = some PatternAction.mnes_does }
    ∷ record { pat = codes "bye"; action = none }
    ∷ []

-- A side with some input, some events to come at its socket, and an open way out.
abbrev pub side : List ℕ → List ReadEvent → Endpoint toy
side bytes events = record {
  name = "side";
  socket = some 4;
  ssl = false;
  iobuf_in = buffer bytes;
  iobuf_out = buffer [];
  matching_enabled = true;
  patterns = noting;
  re = some hi_or_bye;
  mnes_state = 0;
  mccp_mode = mccp_disable;
  mccp_nego = nego_none;
  mccp_in = none;
  mccp_out = none;
  sockstats = no_traffic;
  mccpstats = no_traffic;
  wire = record { incoming = events; outgoing = []; sent = []; peer = none; here = none };
}

-- A key file with nothing in it, but for one switch.
abbrev pub switched : Bool → KeyFile
switched on = record {
  get_string = λ group key. none;
  get_integer = λ group key. none;
  get_boolean = λ group key. some on;
  get_string_list = λ group key. none;
}

pub buffer-IsValid : (bytes : List ℕ) → length bytes ≤ 64 → IsValid (buffer bytes)
buffer-IsValid bytes h = record {
  allocated = omega (
    arith,
    length-append bytes (replicate (64 - length bytes) 0),
    length-replicate {A = ℕ} (64 - length bytes) 0,
  );
  within = h;
  small = omega arith;
}

pub side-IsSound :
    (bytes : List ℕ) (events : List ReadEvent) → length bytes ≤ 64 → IsSound toy (side bytes events)
side-IsSound bytes events h = record {
  in_valid = record { valid = buffer-IsValid bytes h; room = omega arith };
  out_valid = buffer-IsValid [] (omega arith);
}

pub side-HasRules : (bytes : List ℕ) (events : List ReadEvent) → HasRules toy (side bytes events)
side-HasRules bytes events = record {
  code = hi_or_bye;
  is_set = refl;
  inside = toy_inside hi_or_bye;
}

pub side-IsReady :
    (bytes : List ℕ) (events : List ReadEvent) → length bytes ≤ 64 → IsReady toy (side bytes events)
side-IsReady bytes events h = record {
  sound = side-IsSound bytes events h;
  rules = side-HasRules bytes events;
  live = tt;
}
