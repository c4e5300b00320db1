-- ===== src/Demon/Listening/Requests.antt =====
-- The signals that come to `demonize` (muditm.c), and what its handlers leave behind.
use mudit_m.Base.{◌<◌, ◌≡◌, refl, Bool, true, false, List, [], ◌∷◌, ◌++◌, ◌⊎◌, arith}
use mudit_m.Demon.{Demon, Accept, interrupted, zombie_killer, shutdown_handler}
use mudit_m.Demon.Children.{shutdown_requested-zombie_killer}
use mudit_m.Demon.Listening.{
  Interrupt, child_ends, asked, restarts, handle_signal, handle_all, accept_wait, Lap,
}

-- One of the signals asks for the end.
abbrev pub HasStop : List Interrupt → Type 0
HasStop [] = ⊥
HasStop (child_ends n ∷ signals) = HasStop signals
HasStop (asked s ∷ signals) = Unit

-- The signals that ask for the end have a number that is not 0.
abbrev pub Numbered : List Interrupt → Type 0
Numbered [] = Unit
Numbered (child_ends n ∷ signals) = Numbered signals
Numbered (asked s ∷ signals) = (0 < s) × Numbered signals

pub record IsNumbered (l : Lap) : Type 0 where
  pub early : Numbered l.early
  pub waiting : Numbered l.waiting
  pub late : Numbered l.late

abbrev pub Comes : Lap → Type 0
Comes l = HasStop l.early ⊎ HasStop l.waiting ⊎ HasStop l.late

pub handle_all-keeps :
    (forking : Bool) (signals : List Interrupt) (d : Demon)
    → Numbered signals
    → 0 < d.shutdown_requested
    → 0 < (handle_all forking signals d).shutdown_requested
unfolding shutdown_handler
handle_all-keeps forking [] d k h = h
handle_all-keeps true (child_ends n ∷ signals) d k h =
    handle_all-keeps true signals (zombie_killer n d) k
      (omega (arith, h, shutdown_requested-zombie_killer n d))
handle_all-keeps false (child_ends n ∷ signals) d k h = handle_all-keeps false signals d k h
handle_all-keeps true (asked s ∷ signals) d k h =
    handle_all-keeps true signals (shutdown_handler s d) k.1 k.0
handle_all-keeps false (asked s ∷ signals) d k h =
    handle_all-keeps false signals (shutdown_handler s d) k.1 k.0

pub handle_all-asks :
    (forking : Bool) (signals : List Interrupt) (d : Demon)
    → Numbered signals
    → HasStop signals
    → 0 < (handle_all forking signals d).shutdown_requested
unfolding shutdown_handler
handle_all-asks forking [] d k h = absurd h
handle_all-asks true (child_ends n ∷ signals) d k h =
    handle_all-asks true signals (zombie_killer n d) k h
handle_all-asks false (child_ends n ∷ signals) d k h = handle_all-asks false signals d k h
handle_all-asks true (asked s ∷ signals) d k h =
    handle_all-keeps true signals (shutdown_handler s d) k.1 k.0
handle_all-asks false (asked s ∷ signals) d k h =
    handle_all-keeps false signals (shutdown_handler s d) k.1 k.0

-- A request to stop interrupts the wait.
pub accept_wait-asks :
    (forking : Bool) (signals : List Interrupt) (accepted : Accept) (d : Demon)
    → Numbered signals
    → HasStop signals
    → ((accept_wait forking signals accepted d).0 ≡ interrupted)
      × (0 < (accept_wait forking signals accepted d).1.shutdown_requested)
unfolding accept_wait restarts shutdown_handler
accept_wait-asks forking [] accepted d k h = absurd h
accept_wait-asks forking (child_ends n ∷ signals) accepted d k h =
    accept_wait-asks forking signals accepted (handle_signal forking (child_ends n) d) k h
accept_wait-asks true (asked s ∷ signals) accepted d k h =
    (refl, handle_all-keeps true signals (shutdown_handler s d) k.1 k.0)
accept_wait-asks false (asked s ∷ signals) accepted d k h =
    (refl, handle_all-keeps false signals (shutdown_handler s d) k.1 k.0)

pub accept_wait-keeps :
    (forking : Bool) (signals : List Interrupt) (accepted : Accept) (d : Demon)
    → Numbered signals
    → 0 < d.shutdown_requested
    → 0 < (accept_wait forking signals accepted d).1.shutdown_requested
unfolding accept_wait restarts shutdown_handler
accept_wait-keeps forking [] accepted d k h = h
accept_wait-keeps true (child_ends n ∷ signals) accepted d k h =
    accept_wait-keeps true signals accepted (zombie_killer n d) k
      (omega (arith, h, shutdown_requested-zombie_killer n d))
accept_wait-keeps false (child_ends n ∷ signals) accepted d k h =
    accept_wait-keeps false signals accepted d k h
accept_wait-keeps true (asked s ∷ signals) accepted d k h =
    handle_all-keeps true signals (shutdown_handler s d) k.1 k.0
accept_wait-keeps false (asked s ∷ signals) accepted d k h =
    handle_all-keeps false signals (shutdown_handler s d) k.1 k.0

pub handle_all-append :
    (forking : Bool) (xs ys : List Interrupt) (d : Demon)
    → handle_all forking (xs ++ ys) d ≡ handle_all forking ys (handle_all forking xs d)
handle_all-append forking [] ys d = refl
handle_all-append forking (g ∷ xs) ys d =
    handle_all-append forking xs ys (handle_signal forking g d)
