-- ===== src/Demon.antt =====
-- `demonize` of muditm.c: the loop that accepts clients and forks a child for each, the signal
-- handlers `zombie_killer` and `shutdown_handler`, and the limit on the number of children.
pub mod Children
pub mod Listening
pub mod Fatal
use mudit_m.Base.{
  ℕ, zero, suc, ◌+◌, ◌-◌, Bool, true, false, ◌&&◌, List, [], ◌∷◌, min, ltb, leb, ◌==◌,
  if◌then◌else◌,
}

-- The static variables that the loop shares with the handlers, and its local flag.
pub record Demon : Type 0 where
  pub child_count : ℕ
  pub max_children : ℕ
  pub shutdown_requested : ℕ
  pub at_capacity : Bool

-- What `fork` returns: in the parent, in the child, or an error.
pub data Fork : Type 0 where
  in_parent in_child fork_failed : Fork

-- What `accept` returns, with the result of the `fork` that follows it.
pub data Accept : Type 0 where
  client : (socket : ℕ) → Fork → Accept
  interrupted accept_failed : Accept

-- A turn of the loop: it goes on, with a new child or without, it returns a client's socket, or it
-- returns -1.
pub data Turn : Type 0 where
  listens : (forked : Bool) → Demon → Turn
  gives : (socket : ℕ) → Demon → Turn
  stops : Demon → Turn

-- SIGCHLD, where `waitpid` finds so many children that have ended.
unfoldable pub zombie_killer : ℕ → Demon → Demon
zombie_killer zero d = d
zombie_killer (suc ended) d = zombie_killer ended (record d { child_count = d.child_count - 1 })

unfoldable pub shutdown_handler : ℕ → Demon → Demon
shutdown_handler s d = record d { shutdown_requested = s }

-- Behind the test of the limit: the client that was accepted, and its child.
abbrev pub admit : Bool → Accept → Demon → Turn
admit forking interrupted d = listens false d
admit forking accept_failed d = stops d
admit false (client socket fork) d = gives socket d
admit true (client socket in_parent) d = listens true (record d { child_count = d.child_count + 1 })
admit true (client socket in_child) d = gives socket d
admit true (client socket fork_failed) d = listens false d

-- The limit is reached.
abbrev pub is_full : Bool → Demon → Bool
is_full forking d = forking && (ltb 0 d.max_children && leb d.max_children d.child_count)

-- One turn of the `while(1)`. A turn at the limit polls for a while and accepts nobody.
unfoldable pub turn : Bool → Accept → Demon → Turn
turn forking accepted d =
    if ltb 0 d.shutdown_requested
    then stops d
    else if is_full forking d
    then listens false (record d { at_capacity = true })
    else admit forking accepted (record d { at_capacity = false })
