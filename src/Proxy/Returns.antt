-- ===== src/Proxy/Returns.antt =====
-- A whole session of `muditm_proxy` (proxy.c) between sides whose sockets take all bytes, where no
-- compression is offered to the client.
use mudit_m.Libs.{Libs}
use mudit_m.Run.{Run}
use mudit_m.Handlers.Drained.{IsDrained}
use mudit_m.Proxy.Loop.{IsReadySession, ReadyProgress}
use mudit_m.Proxy.Session.{Session, Progress, running, left}

-- Both sides have an empty output buffer and an open way out.
pub record IsDrainedSession (L : Libs) (s : Session L) : Type 0 where
  pub client_drained : IsDrained L s.client
  pub game_drained : IsDrained L s.game

-- A session that is ready for further rounds, with nothing left to write.
abbrev pub IsQuiet : (L : Libs) → Session L → Type 0
IsQuiet L s = IsReadySession L s × IsDrainedSession L s

abbrev pub DrainedProgress : (L : Libs) → Progress L → Type 0
DrainedProgress L (running s) = IsDrainedSession L s
DrainedProgress L (left ret s) = IsDrainedSession L s

abbrev pub QuietProgress : (L : Libs) → Progress L → Type 0
QuietProgress L progress = ReadyProgress L progress × DrainedProgress L progress
