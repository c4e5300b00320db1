-- ===== src/Proxy/Loop.antt =====
-- The poll loop of `muditm_proxy` (proxy.c), round after round: the service of the sides and the
-- fallback.
use mudit_m.Base.{is_zero, Bool, true, false, List, [], ◌∷◌, if◌then◌else◌}
use mudit_m.Libs.{Libs, DeflateLaws, InflateLaws}
use mudit_m.Posix.{Ret, other_errno}
use mudit_m.Run.{Run, ok, Bounded, Bounded-bind, ◌>>=◌}
use mudit_m.Conf.{KeyFile}
use mudit_m.Endpoint.Reads.{Answers}
use mudit_m.Endpoint.{Endpoint}
use mudit_m.Handlers.{send_out}
use mudit_m.Handlers.Bounds.{IsSound, SameRules, Sent, send_out-Sent}
use mudit_m.Handlers.Mnes.{mnes_will}
use mudit_m.Proxy.{Served, goes_on, ends, serve}
use mudit_m.Proxy.Bounds.{HasRules}
use mudit_m.Proxy.Ends.{HasRules-same}
use mudit_m.Proxy.Service.{SoundServed, serve-SoundServed}
use mudit_m.Proxy.Session.{
  Timespec, Poll, error, idle, ready, Round, Session, Progress, running, left, answer_for_client,
  is_due, awaits_client, wait_for_client, fallback, serve_client, serve_game, round, poll_loop,
  of_client, of_game,
}

-- A side that can be served: a socket that answers, valid buffers, an expression that PCRE2 keeps to.
pub record IsReady (L : Libs) (ep : Endpoint L) : Type 0 where
  pub sound : IsSound L ep
  pub rules : HasRules L ep
  pub live : Answers L ep

pub record IsReadySession (L : Libs) (s : Session L) : Type 0 where
  pub client_ready : IsReady L s.client
  pub game_ready : IsReady L s.game

abbrev pub ReadyProgress : (L : Libs) → Progress L → Type 0
ReadyProgress L (running s) = IsReadySession L s
ReadyProgress L (left ret s) = IsReadySession L s

pub IsReady-same :
    (L : Libs) (ep ep' : Endpoint L)
    → IsReady L ep
    → IsSound L ep'
    → SameRules L ep ep'
    → IsReady L ep'
IsReady-same L ep ep' r s k = record {
  sound = s;
  rules = HasRules-same L ep ep' r.rules k;
  live = k.answers r.live;
}

if-Bounded {ℓ} :
    {A : Type ℓ} (P : A → Type 0) (c : Bool) (m k : Run A)
    → Bounded P m
    → Bounded P k
    → Bounded P (if c then m else k)
if-Bounded P true m k a b = a
if-Bounded P false m k a b = b

module _ (L : Libs) (deflates : DeflateLaws L) where
  answer_for_client-IsReady :
      (s : Session L) → IsReadySession L s → Bounded (IsReadySession L) (answer_for_client L s)
  unfolding answer_for_client
  answer_for_client-IsReady s r =
      Bounded-bind (Sent L s.game) _ (send_out L mnes_will s.game) _
        (send_out-Sent L deflates s.game mnes_will r.game_ready.sound)
        (λ game' k. record {
          client_ready = record {
            sound = record {
              in_valid = r.client_ready.sound.in_valid;
              out_valid = r.client_ready.sound.out_valid;
            };
            rules = record {
              code = r.client_ready.rules.code;
              is_set = r.client_ready.rules.is_set;
              inside = r.client_ready.rules.inside;
            };
            live = r.client_ready.live;
          };
          game_ready = IsReady-same L s.game game' r.game_ready k.sound k.rules;
        })

  pub fallback-IsReady :
      (gkf : KeyFile) (now : Timespec) (s : Session L)
      → IsReadySession L s
      → Bounded (IsReadySession L) (fallback L gkf now s)
  unfolding fallback
  fallback-IsReady gkf now s r =
      if-Bounded (IsReadySession L) (awaits_client L gkf s) (wait_for_client L gkf now s) (ok s)
        (if-Bounded (IsReadySession L) (is_zero s.mnes_deadline.tv_sec) (ok _)
          (if is_due now s.mnes_deadline then answer_for_client L s else ok s)
          (record { client_ready = r.client_ready; game_ready = r.game_ready })
          (if-Bounded (IsReadySession L) (is_due now s.mnes_deadline) (answer_for_client L s) (ok s)
            (answer_for_client-IsReady s r) r))
        r

module _ (L : Libs) (deflates : DeflateLaws L) (inflates : InflateLaws L) (gkf : KeyFile) where
  of_client-Ready :
      (s : Session L)
      → IsReadySession L s
      → (served : Served L) → SoundServed L deflates inflates gkf s.client s.game served
      → ReadyProgress L (of_client L s.mnes_deadline served)
  of_client-Ready s r (goes_on from to) k = record {
    client_ready = IsReady-same L s.client from r.client_ready k.0 k.2;
    game_ready = IsReady-same L s.game to r.game_ready k.1 k.3;
  }
  of_client-Ready s r (ends ret from to) k = record {
    client_ready = IsReady-same L s.client from r.client_ready k.0 k.2;
    game_ready = IsReady-same L s.game to r.game_ready k.1 k.3;
  }

  of_game-Ready :
      (s : Session L)
      → IsReadySession L s
      → (served : Served L) → SoundServed L deflates inflates gkf s.game s.client served
      → ReadyProgress L (of_game L s.mnes_deadline served)
  of_game-Ready s r (goes_on from to) k = record {
    client_ready = IsReady-same L s.client to r.client_ready k.1 k.3;
    game_ready = IsReady-same L s.game from r.game_ready k.0 k.2;
  }
  of_game-Ready s r (ends ret from to) k = record {
    client_ready = IsReady-same L s.client to r.client_ready k.1 k.3;
    game_ready = IsReady-same L s.game from r.game_ready k.0 k.2;
  }

  pub serve_client-Ready :
      (readable : Bool) (s : Session L)
      → IsReadySession L s
      → Bounded (ReadyProgress L) (serve_client L gkf readable s)
  unfolding serve_client
  serve_client-Ready false s r = r
  serve_client-Ready true s r =
      Bounded-bind (SoundServed L deflates inflates gkf s.client s.game) _
        (serve L gkf s.client s.game) _
        (serve-SoundServed L deflates inflates gkf s.client s.game r.client_ready.sound
          r.game_ready.sound r.client_ready.rules r.client_ready.live)
        (λ served k. of_client-Ready s r served k)

  pub serve_game-Ready :
      (readable : Bool) (s : Session L)
      → IsReadySession L s
      → Bounded (ReadyProgress L) (serve_game L gkf readable s)
  unfolding serve_game
  serve_game-Ready false s r = r
  serve_game-Ready true s r =
      Bounded-bind (SoundServed L deflates inflates gkf s.game s.client) _
        (serve L gkf s.game s.client) _
        (serve-SoundServed L deflates inflates gkf s.game s.client r.game_ready.sound
          r.client_ready.sound r.game_ready.rules r.game_ready.live)
        (λ served k. of_game-Ready s r served k)

  then_game :
      (readable : Bool) (progress : Progress L)
      → ReadyProgress L progress
      → Bounded
          (ReadyProgress L)
          (elim progress [ left ret s ↦ ok (left ret s) | running s ↦ serve_game L gkf readable s ])
  then_game readable (left ret s) r = r
  then_game readable (running s) r = serve_game-Ready readable s r

  round-Ready :
      (r : Round) (s : Session L) → IsReadySession L s → Bounded (ReadyProgress L) (round L gkf r s)
  unfolding round
  round-Ready (now, poll) s ready_s =
      Bounded-bind (IsReadySession L) _ (fallback L gkf now s) _
        (fallback-IsReady L deflates gkf now s ready_s) (λ s' k. polled poll s' k)
    where
      polled :
          (p : Poll) (s' : Session L)
          → IsReadySession L s'
          → Bounded (ReadyProgress L) (elim p [
            | error ↦ ok (left (Ret.failed other_errno) s')
            | idle ↦ ok (running s')
            | ready client_in game_in ↦ serve_client L gkf client_in s' >>= λ progress.
                elim progress [
                  | left ret s'' ↦ ok (left ret s'')
                  | running s'' ↦ serve_game L gkf game_in s''
                ]
          ])
      polled error s' k = k
      polled idle s' k = k
      polled (ready client_in game_in) s' k =
          Bounded-bind (ReadyProgress L) _ (serve_client L gkf client_in s') _
            (serve_client-Ready client_in s' k) (λ progress q. then_game game_in progress q)

  pub poll_loop-Ready :
      (rounds : List Round) (s : Session L)
      → IsReadySession L s
      → Bounded (ReadyProgress L) (poll_loop L gkf rounds s)
  unfolding poll_loop
  poll_loop-Ready [] s k = k
  poll_loop-Ready (r ∷ rounds) s k =
      Bounded-bind (ReadyProgress L) _ (round L gkf r s) _ (round-Ready r s k)
        (λ progress q. onwards progress q (λ s' k'. poll_loop-Ready rounds s' k'))
    where
      onwards :
          (progress : Progress L)
          → ReadyProgress L progress
          → ((s' : Session L)
              → IsReadySession L s'
              → Bounded (ReadyProgress L) (poll_loop L gkf rounds s'))
          → Bounded (ReadyProgress L) (elim progress [
            | left ret s' ↦ ok (left ret s')
            | running s' ↦ poll_loop L gkf rounds s'
          ])
      onwards (left ret s') q next = q
      onwards (running s') q next = next s' q
