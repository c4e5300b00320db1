-- ===== src/Tests/Proxying.antt =====
-- The theorems on the loops of `muditm_proxy` (proxy.c), applied.
use mudit_m.Base.{
  take, ◌≡◌, refl, true, false, some, List, [], ◌∷◌, ◌++◌, replicate, arith, codes, drop,
}
use mudit_m.Iobuf.{contents, avail_iobuf}
use mudit_m.Posix.{count, arrived, hangup}
use mudit_m.Run.{ok, Returns}
use mudit_m.Telnet.{do_cmd, wont}
use mudit_m.Endpoint.{Endpoint, PatternAction}
use mudit_m.Endpoint.Delivery.{outbound}
use mudit_m.Handlers.Bounds.{IsSound}
use mudit_m.Handlers.Patterns.{compile_patterns, print_patterns, print_text}
use mudit_m.Handlers.Patterns.Text.{alternation}
use mudit_m.Handlers.Mnes.{mnes_will}
use mudit_m.Conf.{get_conf_boolean}
use mudit_m.Proxy.{on_match, serve}
use mudit_m.Proxy.Transparent.{IsClear}
use mudit_m.Proxy.Faults.{EndsWith, serve_full_ends, on_match_pops_twice}
use mudit_m.Proxy.Session.{Timespec, deadline_at, Round, idle, ready, Session, fallback, is_due}
use mudit_m.Proxy.Fallback.{fallback_answers_once}
use mudit_m.Proxy.Start.{Compiles, game_list, client_list}
use mudit_m.Tests.Toy.{toy, toy_inside, groups}
use mudit_m.Tests.Sides.{side, switched, side-IsSound}

abbrev talker : Endpoint toy
talker = side (codes "oh hi bye now") []

abbrev pub listener : Endpoint toy
listener = side [] []

abbrev pub caller : Endpoint toy
caller = side [] (arrived (codes "hi bye") ∷ hangup ∷ [])

talker-IsSound : IsSound toy talker
talker-IsSound = side-IsSound (codes "oh hi bye now") [] (omega arith)

pub listener-IsSound : IsSound toy listener
listener-IsSound = side-IsSound [] [] (omega arith)

listener-IsClear : IsClear toy listener
listener-IsClear = record { plain = refl; open_wire = refl }

abbrev pub started : Timespec
started = record { tv_sec = 100; tv_nsec = 999_000_000 }

abbrev calling : Session toy
calling = record { client = caller; game = listener; mnes_deadline = deadline_at started }

abbrev pub rounds : List Round
rounds = (started, idle) ∷ (started, ready true false) ∷ (started, ready true true) ∷ []

pub caller-Compiles : Compiles toy (client_list toy caller)
unfolding compile_patterns print_patterns print_text
caller-Compiles = record {
  code = groups (alternation (client_list toy caller));
  compiled = refl;
  inside = toy_inside (groups (alternation (client_list toy caller)));
}

pub listener-Compiles : Compiles toy (game_list toy listener)
unfolding compile_patterns print_patterns print_text
listener-Compiles = record {
  code = groups (alternation (game_list toy listener));
  compiled = refl;
  inside = toy_inside (groups (alternation (game_list toy listener)));
}

abbrev pub silent : Session toy
silent = record {
  client = listener;
  game = record listener { mnes_state = do_cmd };
  mnes_deadline = deadline_at started;
}

fallback_answers_once_example :
    Returns
      (λ s'.
        (outbound toy s'.game ≡ outbound toy silent.game ++ mnes_will)
        × (s'.client.mnes_state ≡ wont)
        × (fallback toy (switched true) started s' ≡ ok s'))
      (fallback toy (switched true) started silent)
unfolding get_conf_boolean is_due avail_iobuf
fallback_answers_once_example =
    fallback_answers_once toy (switched true) started started silent refl refl refl refl refl
      (record {
        sound = record {
          in_valid = listener-IsSound.in_valid;
          out_valid = listener-IsSound.out_valid;
        };
        plain = refl;
        space = omega arith;
      })

abbrev crowded : Endpoint toy
crowded = side (replicate 64 7) (arrived (codes "more") ∷ [])

serve_full_ends_example :
    Returns (EndsWith toy (count 1)) (serve toy (switched false) crowded listener)
unfolding avail_iobuf
serve_full_ends_example =
    serve_full_ends toy (switched false) crowded listener (codes "more") [] refl refl refl

on_match_pops_twice_example :
    Returns
      (λ (from', to').
        (contents from'.iobuf_in ≡ drop 3 (drop 3 (contents talker.iobuf_in)))
        × (to'.wire.sent ≡ [] ++ take 3 (drop 3 (contents talker.iobuf_in))))
      (on_match toy
        (switched false)
        (some (record { pat = codes "oh "; action = some PatternAction.mccp2_do }))
        0
        3
        talker
        listener)
on_match_pops_twice_example =
    on_match_pops_twice toy (switched false) talker listener (codes "oh ") 3
      talker-IsSound.in_valid.valid listener-IsClear refl refl (omega arith)
