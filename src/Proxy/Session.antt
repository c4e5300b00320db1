-- ===== src/Proxy/Session.antt =====
-- The rest of `muditm_proxy`: what it sends before the loop, the fallback for a silent client, and
-- the poll loop over the events that the environment chooses.
use mudit_m.Base.{
  ℤ, pos, negsuc, is_zero, is_below, is_at_most, is_equal, plus, quotient, remainder, times, ℕ, ◌-◌,
  Bool, true, false, List, [], ◌∷◌, ◌&&◌, ◌||◌, codes, leb, ◌==◌, if◌then◌else◌,
}
use mudit_m.Telnet.{wont, do_cmd}
use mudit_m.Libs.{Libs}
use mudit_m.Posix.{Ret, other_errno}
use mudit_m.Iostats.{Timeval, iostat_init}
use mudit_m.Run.{Run, ok, ◌>>=◌}
use mudit_m.Conf.{KeyFile, get_conf_boolean, get_conf_int}
use mudit_m.Endpoint.{Endpoint}
use mudit_m.Endpoint.Io.{addr_endpoint, flush_endpoint}
use mudit_m.Handlers.{mnes_pair, print_out, send_out}
use mudit_m.Handlers.Mnes.{mnes_will}
use mudit_m.Handlers.Mccp.{offer_compression}
use mudit_m.Handlers.Patterns.{add_game_patterns, add_client_patterns}
use mudit_m.Proxy.{Served, goes_on, ends, serve}

-- `struct timespec`.
pub record Timespec : Type 0 where
  pub tv_sec : ℕ
  pub tv_nsec : ℕ

-- `mnes_deadline`. A negative number of milliseconds may take it below 0.
pub record Deadline : Type 0 where
  pub tv_sec : ℤ
  pub tv_nsec : ℤ

abbrev pub deadline_at : Timespec → Deadline
deadline_at t = record { tv_sec = pos t.tv_sec; tv_nsec = pos t.tv_nsec }

-- The carry of the nanoseconds.
abbrev pub carried : ℤ → ℤ → Deadline
carried sec (pos n) =
    if leb 1_000_000_000 n
    then record { tv_sec = plus 1 sec; tv_nsec = pos (n - 1_000_000_000) }
    else record { tv_sec = sec; tv_nsec = pos n }
carried sec (negsuc n) = record { tv_sec = sec; tv_nsec = negsuc n }

-- `now` and `ms` milliseconds.
unfoldable pub deadline_after : Timespec → ℤ → Deadline
deadline_after now ms =
    carried (plus now.tv_sec (quotient ms 1000))
      (plus now.tv_nsec (times (remainder ms 1000) 1_000_000))

-- The test of the clock against the deadline.
unfoldable pub is_due : Timespec → Deadline → Bool
is_due now deadline =
    is_below deadline.tv_sec now.tv_sec
    || (is_equal now.tv_sec deadline.tv_sec && is_at_most deadline.tv_nsec now.tv_nsec)

-- What one round of the loop meets: the clock, and the answer of `poll`.
pub data Poll : Type 0 where
  error idle : Poll
  ready : (client_in game_in : Bool) → Poll

abbrev pub Round : Type 0
Round = Timespec × Poll

pub record Session (L : Libs) : Type 0 where
  pub client : Endpoint L
  pub game : Endpoint L
  pub mnes_deadline : Deadline

-- The loop waits for further rounds, or it has left with a result.
pub data Progress (L : Libs) : Type 0 where
  running : Session L → Progress L
  left : Ret → Session L → Progress L

module _ (L : Libs) where
  -- What precedes the loop. `nonblocking` is what the two calls of `fcntl` return.
  unfoldable pub start_proxy :
      KeyFile → Timeval → (nonblocking : Bool × Bool) → Endpoint L → Endpoint L → Run (Progress L)
  start_proxy gkf now (client_ok, game_ok) client game = do
    game1 ← add_game_patterns L game
    client1 ← add_client_patterns L client
    client2 ← offer_compression L (record client1 { sockstats = iostat_init now now now })
    let game2 = record game1 { mccpstats = iostat_init now now now }
    let addrtxt = addr_endpoint client2.wire.peer
    (_, game3) ← elim (get_conf_boolean gkf "muditm" "newenv_immediate_ip" false) [
      | false ↦ ok (Ret.count 0, game2)
      | true ↦ flush_endpoint L (print_out L (mnes_pair (codes "IPADDRESS") addrtxt) game2)
    ]
    let s : Session L = record {
      client = client2;
      game = game3;
      mnes_deadline = deadline_at (record { tv_sec = 0; tv_nsec = 0 });
    }
    ok (if client_ok && game_ok then running s else left (Ret.failed other_errno) s)

  -- "respond on behalf of the client": the message that a client which would do MNES sends.
  unfoldable pub answer_for_client : Session L → Run (Session L)
  answer_for_client s = do
    game' ← send_out L mnes_will s.game
    ok (record s { client = record (s.client) { mnes_state = wont }; game = game' })

  -- The outer test of the fallback: it is enabled, the game does MNES and the client has not said.
  abbrev pub awaits_client : KeyFile → Session L → Bool
  awaits_client gkf s =
      get_conf_boolean gkf "muditm" "newenv_fallback" false
      && ((s.game.mnes_state == do_cmd) && (s.client.mnes_state == 0))

  -- The deadline is set, or it is compared with the clock.
  abbrev pub wait_for_client : KeyFile → Timespec → Session L → Run (Session L)
  wait_for_client gkf now s =
      if is_zero s.mnes_deadline.tv_sec
      then ok (record s {
        mnes_deadline =
            deadline_after now (get_conf_int gkf "muditm" "newenv_fallback_ms" (pos 2000));
      })
      else if is_due now s.mnes_deadline
      then answer_for_client s
      else ok s

  -- The fallback at the head of each round.
  unfoldable pub fallback : KeyFile → Timespec → Session L → Run (Session L)
  fallback gkf now s = if awaits_client gkf s then wait_for_client gkf now s else ok s

  abbrev pub of_client : Deadline → Served L → Progress L
  of_client deadline (goes_on from to) =
      running (record { client = from; game = to; mnes_deadline = deadline })
  of_client deadline (ends ret from to) =
      left ret (record { client = from; game = to; mnes_deadline = deadline })

  abbrev pub of_game : Deadline → Served L → Progress L
  of_game deadline (goes_on from to) =
      running (record { client = to; game = from; mnes_deadline = deadline })
  of_game deadline (ends ret from to) =
      left ret (record { client = to; game = from; mnes_deadline = deadline })

  -- Entries 0 and 1 of `pollster`.
  unfoldable pub serve_client : KeyFile → Bool → Session L → Run (Progress L)
  serve_client gkf false s = ok (running s)
  serve_client gkf true s = do
    served ← serve L gkf s.client s.game
    ok (of_client s.mnes_deadline served)

  unfoldable pub serve_game : KeyFile → Bool → Session L → Run (Progress L)
  serve_game gkf false s = ok (running s)
  serve_game gkf true s = do
    served ← serve L gkf s.game s.client
    ok (of_game s.mnes_deadline served)

  -- One round of the `while(1)`.
  unfoldable pub round : KeyFile → Round → Session L → Run (Progress L)
  round gkf (now, poll) s = do
    s' ← fallback gkf now s
    elim poll [
      | error ↦ ok (left (Ret.failed other_errno) s')
      | idle ↦ ok (running s')
      | ready client_in game_in ↦ do
        progress ← serve_client gkf client_in s'
        elim progress [
          | left ret s'' ↦ ok (left ret s'')
          | running s'' ↦ serve_game gkf game_in s''
        ]
    ]

  unfoldable pub poll_loop : KeyFile → List Round → Session L → Run (Progress L)
  poll_loop gkf [] s = ok (running s)
  poll_loop gkf (r ∷ rounds) s = do
    progress ← round gkf r s
    elim progress [ left ret s' ↦ ok (left ret s') | running s' ↦ poll_loop gkf rounds s' ]

  unfoldable pub muditm_proxy :
      KeyFile → Timeval → Bool × Bool → List Round → Endpoint L → Endpoint L → Run (Progress L)
  muditm_proxy gkf now nonblocking rounds client game = do
    progress ← start_proxy gkf now nonblocking client game
    elim progress [ left ret s ↦ ok (left ret s) | running s ↦ poll_loop gkf rounds s ]
