-- ===== src/Demon/Listening/Stopping.antt =====
-- How a request to stop ends the loop of `demonize` (muditm.c).
use mudit_m.Base.{
  ltb, ◌<◌, ◌≡◌, refl, sym, ap, ◌∙◌, Bool, true, false, List, [], ◌∷◌, ◌++◌, ◌⊎◌, inl, inr,
  Bool-cases, arith, lt→ltb,
}
use mathlib.Core.Path.{subst}
use mudit_m.Demon.{
  Demon, Turn, Accept, client, interrupted, accept_failed, in_parent, in_child, fork_failed,
  listens, gives, stops, admit, is_full, turn,
}
use mudit_m.Demon.Listening.{
  Interrupt, handle_all, accept_wait, Lap, then_late, admitted, lap, Demonized, waits, gave,
  refused, accept_loop, demonize,
}
use mudit_m.Demon.Listening.Requests.{
  HasStop, Numbered, IsNumbered, Comes, handle_all-keeps, handle_all-asks, accept_wait-asks,
  accept_wait-keeps, handle_all-append,
}

-- The loop has returned -1.
abbrev pub IsRefused : Demonized → Type 0
IsRefused (waits d) = ⊥
IsRefused (gave socket d) = ⊥
IsRefused (refused d) = Unit

-- A client's socket is not what a lap returns.
abbrev pub NotGiven : Turn → Type 0
NotGiven (listens forked d) = Unit
NotGiven (gives socket d) = ⊥
NotGiven (stops d) = Unit

-- A lap that goes on leaves a request to stop behind, or it returns no client.
abbrev Over : Turn → Type 0
Over (listens forked d) = 0 < d.shutdown_requested
Over (gives socket d) = ⊥
Over (stops d) = Unit

abbrev Asked : Turn → Type 0
Asked (listens forked d) = 0 < d.shutdown_requested
Asked (gives socket d) = Unit
Asked (stops d) = Unit

admitted-Asked :
    (forking : Bool) (r : Accept × Demon) → 0 < r.1.shutdown_requested → Asked (admitted forking r)
admitted-Asked forking (interrupted, d) h = h
admitted-Asked forking (accept_failed, d) h = tt
admitted-Asked false (client socket fork, d) h = tt
admitted-Asked true (client socket in_parent, d) h = h
admitted-Asked true (client socket in_child, d) h = tt
admitted-Asked true (client socket fork_failed, d) h = h

then_late-keeps :
    (forking : Bool) (signals : List Interrupt) (t : Turn)
    → Numbered signals
    → Asked t
    → NotGiven (then_late forking signals t)
    → Over (then_late forking signals t)
then_late-keeps forking signals (listens forked d) k a g = handle_all-keeps forking signals d k a
then_late-keeps forking signals (gives socket d) k a g = g
then_late-keeps forking signals (stops d) k a g = tt

then_late-asks :
    (forking : Bool) (signals : List Interrupt) (t : Turn)
    → Numbered signals
    → HasStop signals
    → NotGiven (then_late forking signals t)
    → Over (then_late forking signals t)
then_late-asks forking signals (listens forked d) k h g = handle_all-asks forking signals d k h
then_late-asks forking signals (gives socket d) k h g = g
then_late-asks forking signals (stops d) k h g = tt

-- All the signals of a lap at the limit.
polled-asks :
    (forking : Bool) (l : Lap) (d : Demon)
    → IsNumbered l
    → Comes l
    → 0 < (handle_all forking (l.early ++ (l.waiting ++ l.late)) d).shutdown_requested
polled-asks forking l d k c =
    let d0 = handle_all forking l.early d in
    let d1 = handle_all forking l.waiting d0 in
    let e =
      ap (λ (x : Demon). x.shutdown_requested)
        (handle_all-append forking l.early (l.waiting ++ l.late) d
          ∙ handle_all-append forking l.waiting l.late d0) in
    let found : 0 < (handle_all forking l.late d1).shutdown_requested = elim c [
      | inl early ↦ handle_all-keeps forking l.late d1 k.late (
          handle_all-keeps forking l.waiting d0 k.waiting
            (handle_all-asks forking l.early d k.early early))
      | inr (inl waiting) ↦
          handle_all-keeps forking l.late d1 k.late
            (handle_all-asks forking l.waiting d0 k.waiting waiting)
      | inr (inr late) ↦ handle_all-asks forking l.late d1 k.late late
    ] in
    omega (arith, e, found)

lap-Over :
    (forking : Bool) (l : Lap) (d : Demon)
    → IsNumbered l
    → Comes l
    → NotGiven (lap forking l d)
    → Over (lap forking l d)
unfolding lap
lap-Over forking l d k c g = elim (Bool-cases (ltb 0 d.shutdown_requested)) [
  | inl over ↦ rw over tt
  | inr on ↦ elim (Bool-cases (is_full forking d)) [
    | inl full ↦ rw (on, full) (polled-asks forking l (record d { at_capacity = true }) k c)
    | inr space ↦
        let start = record d { at_capacity = false } in
        let d0 = handle_all forking l.early start in
        let r = accept_wait forking l.waiting l.accepted d0 in
        let g' : NotGiven (then_late forking l.late (admitted forking r)) = rw (on, space) at g in
        rw (on, space)
          (elim c [
            | inl early ↦
                then_late-keeps forking l.late (admitted forking r) k.late
                  (admitted-Asked forking r (
                    accept_wait-keeps forking l.waiting l.accepted d0 k.waiting
                      (handle_all-asks forking l.early start k.early early)))
                  g'
            | inr (inl waiting) ↦
                then_late-keeps forking l.late (admitted forking r) k.late
                  (admitted-Asked forking r
                    (accept_wait-asks forking l.waiting l.accepted d0 k.waiting waiting).1)
                  g'
            | inr (inr late) ↦ then_late-asks forking l.late (admitted forking r) k.late late g'
          ])
  ]
]

not_given :
    (forking : Bool) (signals : List Interrupt) (r : Accept × Demon)
    → r.0 ≡ interrupted
    → NotGiven (then_late forking signals (admitted forking r))
not_given forking signals (interrupted, d) e = tt
not_given forking signals (accept_failed, d) e = tt
not_given forking signals (client socket fork, d) e = absurd (cc)

-- An interrupted wait gives no client.
waiting-NotGiven :
    (forking : Bool) (l : Lap) (d : Demon)
    → IsNumbered l
    → HasStop l.waiting
    → NotGiven (lap forking l d)
unfolding lap
waiting-NotGiven forking l d k h = elim (Bool-cases (ltb 0 d.shutdown_requested)) [
  | inl over ↦ rw over tt
  | inr on ↦ elim (Bool-cases (is_full forking d)) [
    | inl full ↦ rw (on, full) tt
    | inr space ↦
        let d0 = handle_all forking l.early (record d { at_capacity = false }) in
        rw (on, space)
          (not_given forking l.late _
            (accept_wait-asks forking l.waiting l.accepted d0 k.waiting h).0)
  ]
]

asked_lap :
    (forking : Bool) (l : Lap) (d : Demon) → 0 < d.shutdown_requested → lap forking l d ≡ stops d
unfolding lap
asked_lap forking l d h = rw (lt→ltb 0 d.shutdown_requested h) refl

refused_next :
    (forking : Bool) (next : Lap) (after : List Lap) (t : Turn)
    → Over t
    → IsRefused (elim t [
      | listens forked d ↦ accept_loop forking (next ∷ after) d
      | gives socket d ↦ gave socket d
      | stops d ↦ refused d
    ])
unfolding accept_loop
refused_next forking next after (listens forked d) h =
    rw (accept_loop, asked_lap forking next d h) tt
refused_next forking next after (gives socket d) h = h
refused_next forking next after (stops d) h = tt

waits_inj : (d d' : Demon) → waits d ≡ waits d' → d ≡ d'
waits_inj d d' e = cc

with_handler :
    (forking : Bool) (laps : List Lap) (d : Demon)
    → demonize true forking laps d ≡ accept_loop forking laps d
unfolding demonize
with_handler true laps d = refl
with_handler false laps d = refl

-- What comes first is met first.
accept_loop-append :
    (forking : Bool) (before after : List Lap) (d d' : Demon)
    → accept_loop forking before d ≡ waits d'
    → accept_loop forking (before ++ after) d ≡ accept_loop forking after d'
unfolding accept_loop
accept_loop-append forking [] after d d' e = ap (accept_loop forking after) (waits_inj d d' e)
accept_loop-append forking (l ∷ before) after d d' e =
    onwards (lap forking l d) (λ d1 k. accept_loop-append forking before after d1 d' k) e
  where
    onwards :
        (t : Turn)
        → ((d1 : Demon)
            → accept_loop forking before d1 ≡ waits d'
            → accept_loop forking (before ++ after) d1 ≡ accept_loop forking after d')
        → elim t [
          | listens forked d1 ↦ accept_loop forking before d1
          | gives socket d1 ↦ gave socket d1
          | stops d1 ↦ refused d1
        ]
          ≡ waits d'
        → elim t [
          | listens forked d1 ↦ accept_loop forking (before ++ after) d1
          | gives socket d1 ↦ gave socket d1
          | stops d1 ↦ refused d1
        ]
          ≡ accept_loop forking after d'
    onwards (listens forked d1) next k = next d1 k
    onwards (gives socket d1) next k = absurd (cc)
    onwards (stops d1) next k = absurd (cc)

-- A listener whose handlers are installed has met some laps and still waits. In its next lap,
-- whose requests to stop have numbers that are not 0, one comes while `accept` waits, before or
-- behind ends of children, or at any other time if that lap gives no client: with the next lap,
-- whatever follows, the listener has returned -1 and gives no client's socket.
pub demonize_stops :
    (forking : Bool) (before : List Lap) (l next : Lap) (after : List Lap) (d d' : Demon)
    → accept_loop forking before d ≡ waits d'
    → IsNumbered l
    → HasStop l.waiting ⊎ (Comes l × NotGiven (lap forking l d'))
    → IsRefused (demonize true forking (before ++ (l ∷ next ∷ after)) d)
unfolding accept_loop
demonize_stops forking before l next after d d' e k h =
    let over : Over (lap forking l d') = elim h [
      | inl waiting ↦
          lap-Over forking l d' k (inr (inl waiting)) (waiting-NotGiven forking l d' k waiting)
      | inr (comes, none_given) ↦ lap-Over forking l d' k comes none_given
    ] in
    subst IsRefused
      (sym (
        with_handler forking (before ++ (l ∷ next ∷ after)) d
        ∙ accept_loop-append forking before (l ∷ next ∷ after) d d' e))
      (refused_next forking next after (lap forking l d') over)

-- A lap without signals is a turn.
lap-turn :
    (forking : Bool) (accepted : Accept) (d : Demon)
    → lap forking (record { early = []; waiting = []; accepted = accepted; late = [] }) d
      ≡ turn forking accepted d
unfolding lap accept_wait turn
lap-turn forking accepted d = elim (Bool-cases (ltb 0 d.shutdown_requested)) [
  | inl over ↦ rw over refl
  | inr on ↦ elim (Bool-cases (is_full forking d)) [
    | inl full ↦ rw (on, full) refl
    | inr space ↦
        rw (on, space) (late_nothing (admit forking accepted (record d { at_capacity = false })))
  ]
]
  where
    late_nothing : (t : Turn) → then_late forking [] t ≡ t
    late_nothing (listens forked d') = refl
    late_nothing (gives socket d') = refl
    late_nothing (stops d') = refl
