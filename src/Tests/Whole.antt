-- ===== src/Tests/Whole.antt =====
-- The theorems on whole sessions of `muditm_proxy` (proxy.c), applied.
use mudit_m.Base.{refl, inl, inr, true, [], ◌∷◌, arith}
use mudit_m.Run.{Returns}
use mudit_m.Iobuf.{avail_iobuf}
use mudit_m.Conf.{get_conf_boolean, get_conf_int}
use mudit_m.Proxy.Session.{Timespec, deadline_at, Session, poll_loop}
use mudit_m.Proxy.Waits.{AnsweredFrom, idle_rounds, poll_loop_answers}
use mudit_m.Tests.Toy.{toy}
use mudit_m.Tests.Sides.{switched}
use mudit_m.Tests.Proxying.{caller, listener, listener-IsSound, started, silent}

abbrev calling : Session toy
calling = record { client = caller; game = listener; mnes_deadline = deadline_at started }

-- The game has asked, and no deadline is set.
abbrev asked : Session toy
asked = record silent { mnes_deadline = deadline_at (record { tv_sec = 0; tv_nsec = 0 }) }

abbrev at_second : Timespec
at_second = record { tv_sec = 101; tv_nsec = 0 }

abbrev at_last : Timespec
at_last = record { tv_sec = 103; tv_nsec = 5 }

poll_loop_answers_example :
    Returns
      (AnsweredFrom toy asked)
      (poll_loop toy (switched true) (idle_rounds (started ∷ at_second ∷ at_last ∷ [])) asked)
unfolding get_conf_boolean get_conf_int avail_iobuf
poll_loop_answers_example =
    poll_loop_answers toy (switched true) started (at_second ∷ at_last ∷ []) asked 2000 refl refl
      refl refl
      (record {
        sound = record {
          in_valid = listener-IsSound.in_valid;
          out_valid = listener-IsSound.out_valid;
        };
        plain = refl;
        space = omega arith;
      })
      refl (omega arith) (omega arith) (inr (inl (omega arith, omega arith)))
