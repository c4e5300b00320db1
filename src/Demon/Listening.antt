-- ===== src/Demon/Listening.antt =====
-- `demonize` of muditm.c as a whole: the handlers, and the loop over what happens to the parent. A
-- signal may come at any time; a call of `accept` that waits is restarted behind a handler with
-- SA_RESTART and fails with EINTR behind one without.
pub mod Requests
pub mod Stopping
use mudit_m.Base.{ltb, Bool, true, false, List, [], ◌∷◌, ◌++◌, ℕ, if◌then◌else◌}
use mudit_m.Demon.{
  Demon, Turn, Accept, interrupted, listens, gives, stops, zombie_killer, shutdown_handler, admit,
  is_full,
}

-- SIGCHLD, with the number of children that have ended, or SIGTERM or SIGINT by its number.
pub data Interrupt : Type 0 where
  child_ends : ℕ → Interrupt
  asked : ℕ → Interrupt

-- The `sa_flags` of the handlers: SA_RESTART for SIGCHLD and none for the others.
unfoldable pub restarts : Interrupt → Bool
restarts (child_ends n) = true
restarts (asked s) = false

-- The handler that is called. That of SIGCHLD is only there if the program forks.
abbrev pub handle_signal : (forking : Bool) → Interrupt → Demon → Demon
handle_signal true (child_ends n) d = zombie_killer n d
handle_signal false (child_ends n) d = d
handle_signal forking (asked s) d = shutdown_handler s d

abbrev pub handle_all : (forking : Bool) → List Interrupt → Demon → Demon
handle_all forking [] d = d
handle_all forking (g ∷ signals) d = handle_all forking signals (handle_signal forking g d)

-- `accept`, with the signals that come while it waits and what it returns if it is not interrupted.
unfoldable pub accept_wait : Bool → List Interrupt → Accept → Demon → Accept × Demon
accept_wait forking [] accepted d = (accepted, d)
accept_wait forking (g ∷ signals) accepted d =
    let rest = accept_wait forking signals accepted (handle_signal forking g d) in
    if restarts g
    then rest
    else (interrupted, handle_all forking signals (handle_signal forking g d))

-- A lap of the `while(1)`: the signals between its tests and the wait of `accept`, those while
-- `accept` waits, what it then returns, and the signals from there to the next lap.
pub record Lap : Type 0 where
  pub early : List Interrupt
  pub waiting : List Interrupt
  pub accepted : Accept
  pub late : List Interrupt

-- The signals at the end of a lap that does not return.
abbrev pub then_late : Bool → List Interrupt → Turn → Turn
then_late forking signals (listens forked d) = listens forked (handle_all forking signals d)
then_late forking signals (gives socket d) = gives socket d
then_late forking signals (stops d) = stops d

abbrev pub admitted : Bool → Accept × Demon → Turn
admitted forking (accepted, d) = admit forking accepted d

unfoldable pub lap : Bool → Lap → Demon → Turn
lap forking l d =
    if ltb 0 d.shutdown_requested
    then stops d
    else if is_full forking d
    then listens false
        (handle_all forking (l.early ++ (l.waiting ++ l.late)) (record d { at_capacity = true }))
    else then_late forking l.late (
        admitted forking (
          accept_wait forking l.waiting l.accepted
            (handle_all forking l.early (record d { at_capacity = false }))))

-- The loop is still there, it has returned a client's socket, or -1.
pub data Demonized : Type 0 where
  waits : Demon → Demonized
  gave : (socket : ℕ) → Demon → Demonized
  refused : Demon → Demonized

unfoldable pub accept_loop : Bool → List Lap → Demon → Demonized
accept_loop forking [] d = waits d
accept_loop forking (l ∷ laps) d = elim (lap forking l d) [
  | listens forked d' ↦ accept_loop forking laps d'
  | gives socket d' ↦ gave socket d'
  | stops d' ↦ refused d'
]

-- `installed` is whether `sigaction` takes the handler of SIGCHLD.
unfoldable pub demonize : (installed : Bool) → Bool → List Lap → Demon → Demonized
demonize installed true laps d = if installed then accept_loop true laps d else refused d
demonize installed false laps d = accept_loop false laps d
