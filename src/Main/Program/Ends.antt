-- ===== src/Main/Program/Ends.antt =====
-- How `main` (muditm.c) ends, and what has come before a client is served.
use mudit_m.Base.{ℕ, ◌≡◌, Bool, false, none, some, List, ◌⊎◌}
use mudit_m.Libs.{Libs}
use mudit_m.Run.{Stops}
use mudit_m.Conf.{KeyFile}
use mudit_m.Demon.{Demon}
use mudit_m.Demon.Listening.{waits, gave, refused, demonize}
use mudit_m.Main.{runs, prints_version, prints_usage, parse_options, Settings, settings_of}
use mudit_m.Main.Session.{Circumstances, Ending}
use mudit_m.Main.Session.Opening.Stops.{HasCause}
use mudit_m.Main.Program.{Start, Exit, printed, listening_on, no_client, served, first_demon}
use mudit_m.Main.Program.Checks.{IsOpen, IsCertified}

-- What has come before a client is served, and what comes of it.
pub record Admitted (L : Libs) (w : Start) (c : Circumstances) (gkf : KeyFile) (s : Settings)
    (ending : Ending L) : Type 0 where
  pub mother_sock : ℕ
  pub client_sock : ℕ
  pub demon : Demon
  pub opened : IsOpen w.listening mother_sock
  pub certified : IsCertified s w.expiry
  pub given :
      demonize w.installed s.demon w.laps (first_demon s.max_children) ≡ gave client_sock demon
  pub cause : HasCause L s c ending

abbrev pub ExitOf : (L : Libs) → Start → Circumstances → KeyFile → Settings → Exit L → Type 0
ExitOf L w c gkf s printed = ⊥
ExitOf L w c gkf s (listening_on d) =
    demonize w.installed s.demon w.laps (first_demon s.max_children) ≡ waits d
ExitOf L w c gkf s no_client =
    (d : Demon) × (demonize w.installed s.demon w.laps (first_demon s.max_children) ≡ refused d)
ExitOf L w c gkf s (served ending) = Admitted L w c gkf s ending

-- How the whole program ends.
abbrev pub Outcomes : (L : Libs) → Start → Circumstances → Exit L → Type 0
Outcomes L w c printed =
    (parse_options w.options none false ≡ prints_version)
    ⊎ (parse_options w.options none false ≡ prints_usage)
Outcomes L w c exit =
    (name : List ℕ) × (debugging : Bool) × (gkf : KeyFile) × (parse_options w.options none false
      ≡ runs name debugging)
    × (w.load name ≡ some gkf)
    × ExitOf L w c gkf (settings_of gkf debugging) exit
