-- ===== src/Proxy/Fallback.antt =====
-- The fallback of `muditm_proxy` (proxy.c) for a client that is silent about NEW-ENVIRON, and its
-- deadline.
use mudit_m.Base.{
  pos, is_zero, ◌-◌, ◌/◌, ◌%◌, leb, Bool-cases, inl, inr, false, ℕ, ◌+◌, ◌*◌, ◌≤◌, ◌<◌, ◌≡◌, refl,
  ◌↔◌, true, false, ◌++◌, ap, arith, if◌then◌else◌,
}
use mudit_m.Libs.{Libs}
use mudit_m.Run.{ok, Returns, Returns-bind}
use mudit_m.Telnet.{do_cmd, wont}
use mudit_m.Conf.{KeyFile, get_conf_boolean}
use mudit_m.Endpoint.Delivery.{outbound}
use mudit_m.Handlers.{send_out}
use mudit_m.Handlers.Answers.{Says, send_out-Says}
use mudit_m.Handlers.Replies.{IsOpen}
use mudit_m.Handlers.Mnes.{mnes_will}
use mudit_m.Proxy.Session.{
  Timespec, deadline_at, Session, deadline_after, is_due, awaits_client, wait_for_client,
  answer_for_client, fallback,
}

-- The time in nanoseconds.
abbrev pub nanos : Timespec → ℕ
nanos t = t.tv_sec * 1_000_000_000 + t.tv_nsec

-- The deadline of milliseconds that are not negative, as a time.
abbrev pub time_after : Timespec → ℕ → Timespec
time_after now ms =
    let nsec = now.tv_nsec + ms % 1000 * 1_000_000 in
    if leb 1_000_000_000 nsec
    then record { tv_sec = 1 + (now.tv_sec + ms / 1000); tv_nsec = nsec - 1_000_000_000 }
    else record { tv_sec = now.tv_sec + ms / 1000; tv_nsec = nsec }

pub deadline_after-time :
    (now : Timespec) (ms : ℕ) → deadline_after now (pos ms) ≡ deadline_at (time_after now ms)
unfolding deadline_after
deadline_after-time now ms =
    elim (Bool-cases (leb 1_000_000_000 (now.tv_nsec + ms % 1000 * 1_000_000))) [
      | inl over ↦ rw over refl
      | inr under ↦ rw under refl
    ]

-- From a normalised clock, the deadline of the fallback is normalised, and in nanoseconds it is
-- the clock and the milliseconds.
pub time_after-nanos :
    (now : Timespec) (ms : ℕ)
    → now.tv_nsec < 1_000_000_000
    → ((time_after now ms).tv_nsec < 1_000_000_000)
      × (nanos (time_after now ms) ≡ nanos now + ms * 1_000_000)
time_after-nanos now ms h = ground arith

-- For two normalised times the test for the deadline holds exactly if the clock's nanoseconds are
-- at least the deadline's.
pub is_due-nanos :
    (now deadline : Timespec)
    → now.tv_nsec < 1_000_000_000
    → deadline.tv_nsec < 1_000_000_000
    → (is_due now (deadline_at deadline) ≡ true) ↔ (nanos deadline ≤ nanos now)
unfolding is_due
is_due-nanos now deadline h k = ground arith

module _ (L : Libs) (gkf : KeyFile) where
  awaits_none : (s : Session L) → 0 < s.client.mnes_state → awaits_client L gkf s ≡ false
  awaits_none s h = ground arith

  answers_when_due :
      (now : Timespec) (s : Session L)
      → get_conf_boolean gkf "muditm" "newenv_fallback" false ≡ true
      → s.game.mnes_state ≡ do_cmd
      → s.client.mnes_state ≡ 0
      → is_zero s.mnes_deadline.tv_sec ≡ false
      → is_due now s.mnes_deadline ≡ true
      → fallback L gkf now s ≡ answer_for_client L s
  unfolding fallback
  answers_when_due now s on waits silent set due = simp (on, waits, silent, due, set)

  -- The fallback is done with a client that has an answer, its own or the one made for it.
  pub fallback_answered :
      (now : Timespec) (s : Session L) → 0 < s.client.mnes_state → fallback L gkf now s ≡ ok s
  unfolding fallback
  fallback_answered now s h =
      ap (λ b. if b then wait_for_client L gkf now s else ok s) (awaits_none s h)

  -- The fallback is enabled, the game does NEW-ENVIRON, the client is silent, a deadline is set
  -- and has come, and the game's side has valid buffers, no compression and space: the game is
  -- told IAC WILL NEW-ENVIRON, the client counts as one that refused, and the fallback of any
  -- later round does nothing.
  pub fallback_answers_once :
      (now later : Timespec) (s : Session L)
      → get_conf_boolean gkf "muditm" "newenv_fallback" false ≡ true
      → s.game.mnes_state ≡ do_cmd
      → s.client.mnes_state ≡ 0
      → is_zero s.mnes_deadline.tv_sec ≡ false
      → is_due now s.mnes_deadline ≡ true
      → IsOpen L 2 s.game
      → Returns
          (λ s'.
            (outbound L s'.game ≡ outbound L s.game ++ mnes_will)
            × (s'.client.mnes_state ≡ wont)
            × (fallback L gkf later s' ≡ ok s'))
          (fallback L gkf now s)
  unfolding answer_for_client
  fallback_answers_once now later s on waits silent set due o =
      rw (answers_when_due now s on waits silent set due) (
        Returns-bind (Says L mnes_will s.game) _ (send_out L mnes_will s.game) _
          (send_out-Says L s.game mnes_will o.sound.out_valid o.plain (omega (arith, o.space)))
          (λ game' k. (k.said, refl, fallback_answered later _ (omega arith))))
