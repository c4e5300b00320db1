-- ===== src/Tests/Running.antt =====
-- The theorems on the listener and on the whole of `main` (muditm.c), applied.
use mudit_m.Base.{pos, ◌++◌, inl, refl, true, none, some, List, [], ◌∷◌, arith, codes}
use mudit_m.Posix.{arrived, hangup}
use mudit_m.Certcheck.{expires_in}
use mudit_m.Demon.{Accept, in_parent, client, interrupted, zombie_killer}
use mudit_m.Demon.Listening.{
  Lap, lap, child_ends, asked, restarts, accept_wait, accept_loop, demonize,
}
use mudit_m.Demon.Listening.Stopping.{IsRefused, demonize_stops}
use mudit_m.Main.{config_file, debug}
use mudit_m.Main.Program.{Start, first_demon}
use mudit_m.Tests.Sides.{switched}

abbrev quiet_lap : Accept → Lap
quiet_lap accepted = record { early = []; waiting = []; accepted = accepted; late = [] }

-- A client, then the end of its child while the next is waited for.
abbrev busy : List Lap
busy =
    quiet_lap (client 5 in_parent)
    ∷ record { early = []; waiting = child_ends 1 ∷ []; accepted = client 6 in_parent; late = [] }
    ∷ []

abbrev stopping : Lap
stopping = record {
  early = [];
  waiting = child_ends 1 ∷ asked 15 ∷ [];
  accepted = client 7 in_parent;
  late = [];
}

demonize_stops_example : IsRefused (
    demonize true true
      (busy ++ (stopping ∷ quiet_lap (client 8 in_parent) ∷ []))
      (first_demon (pos 3)))
unfolding accept_loop lap accept_wait restarts zombie_killer
demonize_stops_example =
    demonize_stops true busy stopping (quiet_lap (client 8 in_parent)) [] (first_demon (pos 3)) _
      refl (record { early = tt; waiting = (omega arith, tt); late = tt }) (inl tt)

abbrev started : Start
started = record {
  options = debug ∷ config_file (codes "muditm.conf") ∷ [];
  load = λ name. some (switched true);
  log_opens = true;
  expiry = expires_in (pos 90) (pos 0);
  listening = record {
    socket = some 3;
    reuseaddr_set = true;
    linger_set = true;
    bound = true;
    listens = true;
  };
  installed = true;
  laps = quiet_lap interrupted ∷ quiet_lap (client 5 in_parent) ∷ [];
  client_wire = record {
    incoming = arrived (codes "hi") ∷ hangup ∷ [];
    outgoing = [];
    sent = [];
    peer = none;
    here = none;
  };
}
