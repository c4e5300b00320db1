-- ===== src/Main/Program.antt =====
-- `main` of muditm.c as a whole: the options, the key file, the log, the certificate, the listener, and
-- the child of a client.
pub mod Checks
pub mod Ends
use mudit_m.Base.{ℤ, positive_part, ℕ, Bool, true, false, Option, none, some, List, [], ◌∷◌}
use mudit_m.Libs.{Libs}
use mudit_m.Posix.{Wire}
use mudit_m.Run.{Run, ok, exits, ◌>>=◌}
use mudit_m.Conf.{KeyFile}
use mudit_m.Debug.{muditm_log_init}
use mudit_m.Certcheck.{Expiry, Outcome, quiet, fatal, warned, check_cert_expiry}
use mudit_m.Endpoint.{Endpoint, new_endpoint}
use mudit_m.Demon.{Demon}
use mudit_m.Demon.Listening.{Lap, Demonized, waits, gave, refused, demonize}
use mudit_m.Main.{
  Opt, Parsed, runs, prints_version, prints_usage, parse_options, Settings, settings_of, uses_ssl,
}
use mudit_m.Main.Connect.{Done, Listening, new_mommie}
use mudit_m.Main.Session.{Circumstances, Ending, serve_child}

-- What the system answers to the program before a client is there, and the client's wire.
pub record Start : Type 0 where
  pub options : List Opt
  pub load : List ℕ → Option KeyFile
  pub log_opens : Bool
  pub expiry : Expiry
  pub listening : Listening
  pub installed : Bool
  pub laps : List Lap
  pub client_wire : Wire

-- How the program ends, or that it still listens.
pub data Exit (L : Libs) : Type 0 where
  printed : Exit L
  listening_on : Demon → Exit L
  no_client : Exit L
  served : Ending L → Exit L

-- A certificate that has expired ends the program.
abbrev pub unless_fatal : Outcome → Run Done
unless_fatal quiet = ok tt
unless_fatal (fatal notice) = exits
unless_fatal (warned notice) = ok tt

abbrev pub check_certificate : Bool → Expiry → Run Done
check_certificate false expiry = ok tt
check_certificate true expiry = unless_fatal (check_cert_expiry expiry)

-- The parent's variables at the start. A limit below 1 is none, and is kept as 0.
abbrev pub first_demon : ℤ → Demon
first_demon max_children = record {
  child_count = 0;
  max_children = positive_part max_children;
  shutdown_requested = 0;
  at_capacity = false;
}

module _ (L : Libs) where
  -- The endpoint of the client.
  abbrev pub client_endpoint : Circumstances → Wire → ℕ → Endpoint L
  client_endpoint c wire client_sock = record (new_endpoint L c.malloc c.now wire (some "Client")) {
    socket = some client_sock;
  }

  -- What `demonize` has returned.
  abbrev pub with_demonized : KeyFile → Settings → Circumstances → Wire → Demonized → Run (Exit L)
  with_demonized gkf s c wire (waits d) = ok (listening_on d)
  with_demonized gkf s c wire (refused d) = ok no_client
  with_demonized gkf s c wire (gave client_sock d) = do
    ending ← serve_child L gkf s c (client_endpoint c wire client_sock)
    ok (served ending)

  -- Behind the settings.
  unfoldable pub run_program : Start → Circumstances → KeyFile → Settings → Run (Exit L)
  run_program w c gkf s = do
    log ← muditm_log_init s.log_file w.log_opens
    _ ← check_certificate (uses_ssl s) w.expiry
    mother_sock ← new_mommie w.listening
    with_demonized gkf s c w.client_wire
        (demonize w.installed s.demon w.laps (first_demon s.max_children))

  abbrev pub with_file : Start → Circumstances → Bool → Option KeyFile → Run (Exit L)
  with_file w c debugging none = exits
  with_file w c debugging (some gkf) = run_program w c gkf (settings_of gkf debugging)

  abbrev pub with_options : Start → Circumstances → Parsed → Run (Exit L)
  with_options w c (runs configfilename debugging) = with_file w c debugging (w.load configfilename)
  with_options w c prints_version = ok printed
  with_options w c prints_usage = ok printed

  unfoldable pub main : Start → Circumstances → Run (Exit L)
  main w c = with_options w c (parse_options w.options none false)
