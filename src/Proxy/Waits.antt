-- ===== src/Proxy/Waits.antt =====
-- The poll loop of `muditm_proxy` (proxy.c) while nothing comes from either side: the wait for a
-- silent client, from the round that sets the deadline.
use mudit_m.Base.{
  ap, sym, pos, is_zero, ℕ, ◌+◌, ◌*◌, ◌≤◌, ◌<◌, ◌≡◌, refl, sym, ◌∙◌, ◌⊎◌, inl, inr, Bool-cases,
  true, false, List, [], ◌∷◌, ◌++◌, arith, ◌==◌,
}
use mathlib.Core.Path.{subst}
use mudit_m.Libs.{Libs}
use mudit_m.Run.{ok, Returns, Returns-value}
use mudit_m.Telnet.{do_cmd, wont}
use mudit_m.Conf.{KeyFile, get_conf_boolean, get_conf_int}
use mudit_m.Endpoint.Delivery.{outbound}
use mudit_m.Handlers.Replies.{IsOpen}
use mudit_m.Handlers.Mnes.{mnes_will}
use mudit_m.Proxy.Fallback.{
  nanos, time_after, deadline_after-time, time_after-nanos, is_due-nanos, fallback_answers_once,
  fallback_answered,
}
use mudit_m.Proxy.Session.{
  Deadline, deadline_at, Timespec, Round, idle, Session, Progress, running, left, deadline_after,
  is_due, fallback, round, poll_loop,
}

-- Rounds in which `poll` returns with nothing to read.
abbrev pub idle_rounds : List Timespec → List Round
idle_rounds [] = []
idle_rounds (t ∷ times) = (t, idle) ∷ idle_rounds times

-- One of the times is normalised and not before a bound in nanoseconds.
abbrev pub ReachedIn : ℕ → List Timespec → Type 0
ReachedIn bound [] = ⊥
ReachedIn bound (t ∷ times) =
    ((t.tv_nsec < 1_000_000_000) × (bound ≤ nanos t)) ⊎ ReachedIn bound times

-- The game was told once, and the client counts as one that refused.
abbrev pub AnsweredFrom : (L : Libs) → Session L → Progress L → Type 0
AnsweredFrom L s (running s') =
    (outbound L s'.game ≡ outbound L s.game ++ mnes_will) × (s'.client.mnes_state ≡ wont)
AnsweredFrom L s (left ret s') = ⊥

not_zero : (n : ℕ) → 0 < n → (n == 0) ≡ false
not_zero n h = ground arith

started_later : (now : Timespec) (ms : ℕ) → 0 < now.tv_sec → 0 < (time_after now ms).tv_sec
started_later now ms h = ground arith

module _ (L : Libs) (gkf : KeyFile) where
  -- What the loop does with a round that is idle.
  idle_round :
      (t : Timespec) (times : List Timespec) (s s' : Session L)
      → fallback L gkf t s ≡ ok s'
      → poll_loop L gkf (idle_rounds (t ∷ times)) s ≡ poll_loop L gkf (idle_rounds times) s'
  unfolding poll_loop round
  idle_round t times s s' e = rw (poll_loop, round, e) refl

  -- Nothing more is done once there is an answer.
  idle_answered :
      (times : List Timespec) (s : Session L)
      → 0 < s.client.mnes_state
      → poll_loop L gkf (idle_rounds times) s ≡ ok (running s)
  unfolding poll_loop
  idle_answered [] s h = refl
  idle_answered (t ∷ times) s h =
      idle_round t times s s (fallback_answered L gkf t s h) ∙ idle_answered times s h

  -- A session whose client is silent, and a game that awaits it.
  record Awaits (s : Session L) : Type 0 where
    pub on : get_conf_boolean gkf "muditm" "newenv_fallback" false ≡ true
    pub waits : s.game.mnes_state ≡ do_cmd
    pub silent : s.client.mnes_state ≡ 0
    pub sends : IsOpen L 2 s.game

  fallback_sets :
      (now : Timespec) (s : Session L)
      → Awaits s
      → is_zero s.mnes_deadline.tv_sec ≡ true
      → fallback L gkf now s
        ≡ ok (record s {
          mnes_deadline =
              deadline_after now (get_conf_int gkf "muditm" "newenv_fallback_ms" (pos 2000));
        })
  unfolding fallback
  fallback_sets now s a unset = simp (a.on, a.waits, a.silent, unset)

  fallback_early :
      (now : Timespec) (s : Session L)
      → Awaits s
      → is_zero s.mnes_deadline.tv_sec ≡ false
      → is_due now s.mnes_deadline ≡ false
      → fallback L gkf now s ≡ ok s
  unfolding fallback
  fallback_early now s a set early = simp (a.on, a.waits, a.silent, set, early)

  still_to_come :
      (t : Timespec) (times : List Timespec) (deadline : Timespec)
      → deadline.tv_nsec < 1_000_000_000
      → is_due t (deadline_at deadline) ≡ false
      → ReachedIn (nanos deadline) (t ∷ times)
      → ReachedIn (nanos deadline) times
  still_to_come t times deadline normal early (inl (n, late)) =
      absurd (let due = (is_due-nanos t deadline n normal).1 late in cc)
  still_to_come t times deadline normal early (inr later) = later

  -- From a deadline that is set, and idle rounds that reach it.
  waits_until :
      (times : List Timespec) (s : Session L) (deadline : Timespec)
      → Awaits s
      → s.mnes_deadline ≡ deadline_at deadline
      → 0 < deadline.tv_sec
      → deadline.tv_nsec < 1_000_000_000
      → ReachedIn (nanos deadline) times
      → Returns (AnsweredFrom L s) (poll_loop L gkf (idle_rounds times) s)
  waits_until [] s deadline a at set normal h = absurd h
  waits_until (t ∷ times) s deadline a at set normal h =
      let isset : is_zero s.mnes_deadline.tv_sec ≡ false =
        ap (λ (d : Deadline). is_zero d.tv_sec) at ∙ not_zero deadline.tv_sec set in
      elim (Bool-cases (is_due t s.mnes_deadline)) [
        | inl due ↦
            let (s', e, (told, counted, done)) =
              Returns-value _ (fallback L gkf t s)
                (fallback_answers_once L gkf t t s a.on a.waits a.silent isset due a.sends) in
            rw (idle_round t times s s' e, idle_answered times s' (omega (arith, counted)))
              (told, counted)
        | inr early ↦ rw (idle_round t times s s (fallback_early t s a isset early)) (
            waits_until times s deadline a at set normal
              (still_to_come t times deadline normal (sym (ap (is_due t) at) ∙ early) h))
      ]

  -- The fallback is enabled, the game does NEW-ENVIRON, the client is silent, no deadline is set,
  -- and the game's side has valid buffers, no compression and space: in a run of idle rounds of
  -- which the first has a normalised clock that is not 0, and some later one a normalised clock
  -- that is not before the first plus the configured milliseconds, which are not negative, the
  -- game is told IAC WILL NEW-ENVIRON exactly once, and the client counts as one that refused.
  pub poll_loop_answers :
      (now : Timespec) (times : List Timespec) (s : Session L) (ms : ℕ)
      → get_conf_int gkf "muditm" "newenv_fallback_ms" (pos 2000) ≡ pos ms
      → get_conf_boolean gkf "muditm" "newenv_fallback" false ≡ true
      → s.game.mnes_state ≡ do_cmd
      → s.client.mnes_state ≡ 0
      → IsOpen L 2 s.game
      → is_zero s.mnes_deadline.tv_sec ≡ true
      → 0 < now.tv_sec
      → now.tv_nsec < 1_000_000_000
      → ReachedIn (nanos now + ms * 1_000_000) times
      → Returns (AnsweredFrom L s) (poll_loop L gkf (idle_rounds (now ∷ times)) s)
  poll_loop_answers now times s ms configured on waits silent sends unset started normal reached =
      let a : Awaits s = record { on = on; waits = waits; silent = silent; sends = sends } in
      let n = time_after-nanos now ms normal in
      rw (idle_round now times s _ (fallback_sets now s a unset)) (
        waits_until times
          (record s {
            mnes_deadline =
                deadline_after now (get_conf_int gkf "muditm" "newenv_fallback_ms" (pos 2000));
          })
          (time_after now ms) (record { on = on; waits = waits; silent = silent; sends = sends })
          (ap (deadline_after now) configured ∙ deadline_after-time now ms)
          (started_later now ms started) n.0
          (subst (λ bound. ReachedIn bound times) (sym n.1) reached))
