-- ===== src/Proxy/Flows.antt =====
-- The poll loop of `muditm_proxy` (proxy.c) as two pipes: what each peer sends comes to the other.
use mudit_m.Base.{ℕ, ◌≡◌, refl, ap, ◌∙◌, Bool, true, false, List, [], ◌∷◌}
use mudit_m.Libs.{Libs}
use mudit_m.Iobuf.{Iobuf}
use mudit_m.Posix.{Ret, other_errno}
use mudit_m.Run.{ok, ◌>>=◌, Returns, Returns-bind, Returns-weaken}
use mudit_m.Conf.{KeyFile, get_conf_boolean}
use mudit_m.Proxy.{Served, goes_on, ends, serve}
use mudit_m.Proxy.Transparent.{IsClear}
use mudit_m.Proxy.Piped.{stream, IsSource}
use mudit_m.Proxy.Pipeline.{PipedServed, serve-Piped}
use mudit_m.Proxy.Session.{
  Timespec, Poll, error, idle, ready, Round, Session, Progress, running, left, fallback,
  serve_client, serve_game, round, poll_loop, of_client, of_game,
}

-- Two sides that are sources for each other, with nothing that waits in their inputs.
pub record IsPipe (L : Libs) (P : ℕ → Type 0) (s : Session L) : Type 0 where
  pub client_source : IsSource L P s.client
  pub game_source : IsSource L P s.game
  pub client_clear : IsClear L s.client
  pub game_clear : IsClear L s.game
  pub client_empty : s.client.iobuf_in.tail ≡ 0
  pub game_empty : s.game.iobuf_in.tail ≡ 0

-- Both directions are as they were.
pub record Flowed (L : Libs) (P : ℕ → Type 0) (s s' : Session L) : Type 0 where
  pub to_game : stream L s'.client s'.game ≡ stream L s.client s.game
  pub to_client : stream L s'.game s'.client ≡ stream L s.game s.client
  pub pipe : IsPipe L P s'

Flowed-trans :
    (L : Libs) (P : ℕ → Type 0) (a b c : Session L)
    → Flowed L P a b
    → Flowed L P b c
    → Flowed L P a c
Flowed-trans L P a b c p q = record {
  to_game = q.to_game ∙ p.to_game;
  to_client = q.to_client ∙ p.to_client;
  pipe = q.pipe;
}

abbrev pub FlowedBy : (L : Libs) → (ℕ → Type 0) → Session L → Progress L → Type 0
FlowedBy L P s (running s') = Flowed L P s s'
FlowedBy L P s (left ret s') = Flowed L P s s'

pub FlowedBy-trans :
    (L : Libs) (P : ℕ → Type 0) (a b : Session L) (progress : Progress L)
    → Flowed L P a b
    → FlowedBy L P b progress
    → FlowedBy L P a progress
FlowedBy-trans L P a b (running c) p q = Flowed-trans L P a b c p q
FlowedBy-trans L P a b (left ret c) p q = Flowed-trans L P a b c p q

module _ (L : Libs) (P : ℕ → Type 0) (gkf : KeyFile) where
  of_client-Flowed :
      (s : Session L) (served : Served L)
      → IsPipe L P s
      → PipedServed L P gkf s.client s.game served
      → FlowedBy L P s (of_client L s.mnes_deadline served)
  of_client-Flowed s (goes_on from to) i p = record {
    to_game = p.piped.same_stream;
    to_client = p.piped.back_stream;
    pipe = record {
      client_source = p.piped.source;
      game_source = p.piped.back_source i.game_source;
      client_clear = p.piped.back_clear i.client_clear;
      game_clear = p.piped.clear;
      client_empty = p.still_empty i.client_empty;
      game_empty = ap (λ (b : Iobuf). b.tail) p.back_in ∙ i.game_empty;
    };
  }
  of_client-Flowed s (ends ret from to) i p = record {
    to_game = p.piped.same_stream;
    to_client = p.piped.back_stream;
    pipe = record {
      client_source = p.piped.source;
      game_source = p.piped.back_source i.game_source;
      client_clear = p.piped.back_clear i.client_clear;
      game_clear = p.piped.clear;
      client_empty = p.still_empty i.client_empty;
      game_empty = ap (λ (b : Iobuf). b.tail) p.back_in ∙ i.game_empty;
    };
  }

  of_game-Flowed :
      (s : Session L) (served : Served L)
      → IsPipe L P s
      → PipedServed L P gkf s.game s.client served
      → FlowedBy L P s (of_game L s.mnes_deadline served)
  of_game-Flowed s (goes_on from to) i p = record {
    to_game = p.piped.back_stream;
    to_client = p.piped.same_stream;
    pipe = record {
      client_source = p.piped.back_source i.client_source;
      game_source = p.piped.source;
      client_clear = p.piped.clear;
      game_clear = p.piped.back_clear i.game_clear;
      client_empty = ap (λ (b : Iobuf). b.tail) p.back_in ∙ i.client_empty;
      game_empty = p.still_empty i.game_empty;
    };
  }
  of_game-Flowed s (ends ret from to) i p = record {
    to_game = p.piped.back_stream;
    to_client = p.piped.same_stream;
    pipe = record {
      client_source = p.piped.back_source i.client_source;
      game_source = p.piped.source;
      client_clear = p.piped.clear;
      game_clear = p.piped.back_clear i.game_clear;
      client_empty = ap (λ (b : Iobuf). b.tail) p.back_in ∙ i.client_empty;
      game_empty = p.still_empty i.game_empty;
    };
  }

  standing : (s : Session L) → IsPipe L P s → Flowed L P s s
  standing s i = record { to_game = refl; to_client = refl; pipe = i }

  serve_client-Flowed :
      (readable : Bool) (s : Session L)
      → IsPipe L P s
      → Returns (FlowedBy L P s) (serve_client L gkf readable s)
  unfolding serve_client
  serve_client-Flowed false s i = standing s i
  serve_client-Flowed true s i =
      Returns-bind (PipedServed L P gkf s.client s.game) _ (serve L gkf s.client s.game) _
        (serve-Piped L P gkf s.client s.game i.client_source i.game_clear)
        (λ served p. of_client-Flowed s served i p)

  serve_game-Flowed :
      (readable : Bool) (s : Session L)
      → IsPipe L P s
      → Returns (FlowedBy L P s) (serve_game L gkf readable s)
  unfolding serve_game
  serve_game-Flowed false s i = standing s i
  serve_game-Flowed true s i =
      Returns-bind (PipedServed L P gkf s.game s.client) _ (serve L gkf s.game s.client) _
        (serve-Piped L P gkf s.game s.client i.game_source i.client_clear)
        (λ served p. of_game-Flowed s served i p)

  then_game :
      (s : Session L) (readable : Bool) (progress : Progress L)
      → FlowedBy L P s progress
      → Returns (FlowedBy L P s) (elim progress [
        | left ret s' ↦ ok (left ret s')
        | running s' ↦ serve_game L gkf readable s'
      ])
  then_game s readable (left ret s') f = f
  then_game s readable (running s') f =
      Returns-weaken (FlowedBy L P s') _ (serve_game L gkf readable s')
        (serve_game-Flowed readable s' f.pipe) (λ progress k. FlowedBy-trans L P s s' progress f k)

  -- The fallback is not enabled.
  fallback_off :
      (now : Timespec) (s : Session L)
      → get_conf_boolean gkf "muditm" "newenv_fallback" false ≡ false
      → fallback L gkf now s ≡ ok s
  unfolding fallback
  fallback_off now s off = rw off refl

  round-Flowed :
      (r : Round) (s : Session L)
      → get_conf_boolean gkf "muditm" "newenv_fallback" false ≡ false
      → IsPipe L P s
      → Returns (FlowedBy L P s) (round L gkf r s)
  unfolding round
  round-Flowed (now, poll) s off i = rw (fallback_off now s off) (polled poll)
    where
      polled :
          (p : Poll)
          → Returns (FlowedBy L P s) (elim p [
            | error ↦ ok (left (Ret.failed other_errno) s)
            | idle ↦ ok (running s)
            | ready client_in game_in ↦ serve_client L gkf client_in s >>= λ progress.
                elim progress [
                  | left ret s'' ↦ ok (left ret s'')
                  | running s'' ↦ serve_game L gkf game_in s''
                ]
          ])
      polled error = standing s i
      polled idle = standing s i
      polled (ready client_in game_in) =
          Returns-bind (FlowedBy L P s) _ (serve_client L gkf client_in s) _
            (serve_client-Flowed client_in s i) (λ progress f. then_game s game_in progress f)

  pub poll_loop-Flowed :
      (rounds : List Round) (s : Session L)
      → get_conf_boolean gkf "muditm" "newenv_fallback" false ≡ false
      → IsPipe L P s
      → Returns (FlowedBy L P s) (poll_loop L gkf rounds s)
  unfolding poll_loop
  poll_loop-Flowed [] s off i = standing s i
  poll_loop-Flowed (r ∷ rounds) s off i =
      Returns-bind (FlowedBy L P s) _ (round L gkf r s) _ (round-Flowed r s off i)
        (λ progress f. onwards progress f (λ s' i'. poll_loop-Flowed rounds s' off i'))
    where
      onwards :
          (progress : Progress L)
          → FlowedBy L P s progress
          → ((s' : Session L)
              → IsPipe L P s'
              → Returns (FlowedBy L P s') (poll_loop L gkf rounds s'))
          → Returns (FlowedBy L P s) (elim progress [
            | left ret s' ↦ ok (left ret s')
            | running s' ↦ poll_loop L gkf rounds s'
          ])
      onwards (left ret s') f next = f
      onwards (running s') f next =
          Returns-weaken (FlowedBy L P s') _ (poll_loop L gkf rounds s') (next s' f.pipe)
            (λ progress k. FlowedBy-trans L P s s' progress f k)
