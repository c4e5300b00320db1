-- ===== src/Demon/Children.antt =====
-- The count of children that `demonize` (muditm.c) keeps, against the children that there are.
use mudit_m.Base.{
  ℕ, zero, suc, ◌-◌, ◌≤◌, ◌<◌, ◌≡◌, refl, ◌∙◌, Bool, true, false, List, [], ◌∷◌, min, arith, ltb,
  Bool-cases, inl, inr, lt→ltb,
}
use mudit_m.Demon.{
  Demon, in_parent, in_child, fork_failed, Accept, client, interrupted, accept_failed, Turn,
  listens, gives, stops, zombie_killer, shutdown_handler, admit, is_full, turn,
}

-- The parent, and the children that it has not yet waited for.
pub record World : Type 0 where
  pub demon : Demon
  pub children : ℕ

-- What happens: some children end and SIGCHLD is handled, a signal asks for the end, or a turn.
pub data Event : Type 0 where
  children_end : ℕ → Event
  asked_to_stop : ℕ → Event
  turned : Accept → Event

-- The parent and its children behind a turn. A turn that returns leaves the world to the caller.
abbrev after_turn : ℕ → Turn → World
after_turn children (listens true d) = record { demon = d; children = suc children }
after_turn children (listens false d) = record { demon = d; children = children }
after_turn children (gives socket d) = record { demon = d; children = children }
after_turn children (stops d) = record { demon = d; children = children }

-- `waitpid` finds no more children than there are.
abbrev pub advance : Bool → Event → World → World
advance forking (children_end n) w = record {
  demon = zombie_killer (min n w.children) w.demon;
  children = w.children - min n w.children;
}
advance forking (asked_to_stop s) w = record {
  demon = shutdown_handler s w.demon;
  children = w.children;
}
advance forking (turned accepted) w = after_turn w.children (turn forking accepted w.demon)

abbrev pub advance_all : Bool → List Event → World → World
advance_all forking [] w = w
advance_all forking (e ∷ events) w = advance_all forking events (advance forking e w)

-- The count is right, and at most the limit if there is one.
pub record IsCounted (limit : ℕ) (w : World) : Type 0 where
  pub exact : w.demon.child_count ≡ w.children
  pub same_limit : w.demon.max_children ≡ limit
  pub bounded : 0 < limit → w.children ≤ limit

child_count-zombie_killer :
    (n : ℕ) (d : Demon) → (zombie_killer n d).child_count ≡ d.child_count - n
unfolding zombie_killer
child_count-zombie_killer zero d = omega arith
child_count-zombie_killer (suc n) d =
    omega (arith, child_count-zombie_killer n (record d { child_count = d.child_count - 1 }))

max_children-zombie_killer : (n : ℕ) (d : Demon) → (zombie_killer n d).max_children ≡ d.max_children
unfolding zombie_killer
max_children-zombie_killer zero d = refl
max_children-zombie_killer (suc n) d =
    max_children-zombie_killer n (record d { child_count = d.child_count - 1 })

-- A turn that gets to `accept` is below the limit.
admit-IsCounted :
    (limit : ℕ) (accepted : Accept) (w : World) (full : Bool)
    → IsCounted limit w
    → (0 < limit → w.children < limit)
    → IsCounted limit
        (after_turn w.children (admit true accepted (record (w.demon) { at_capacity = full })))
admit-IsCounted limit (client socket in_parent) w full c below = record {
  exact = omega (arith, c.exact);
  same_limit = c.same_limit;
  bounded = λ h. omega (arith, below h);
}
admit-IsCounted limit (client socket in_child) w full c below = record {
  exact = c.exact;
  same_limit = c.same_limit;
  bounded = c.bounded;
}
admit-IsCounted limit (client socket fork_failed) w full c below = record {
  exact = c.exact;
  same_limit = c.same_limit;
  bounded = c.bounded;
}
admit-IsCounted limit interrupted w full c below = record {
  exact = c.exact;
  same_limit = c.same_limit;
  bounded = c.bounded;
}
admit-IsCounted limit accept_failed w full c below = record {
  exact = c.exact;
  same_limit = c.same_limit;
  bounded = c.bounded;
}

below_limit :
    (limit : ℕ) (w : World)
    → IsCounted limit w
    → is_full true w.demon ≡ false
    → 0 < limit
    → w.children < limit
below_limit limit w c e h = ground (arith, c.exact, c.same_limit)

turn-IsCounted :
    (limit : ℕ) (accepted : Accept) (w : World)
    → IsCounted limit w
    → IsCounted limit (after_turn w.children (turn true accepted w.demon))
unfolding turn
turn-IsCounted limit accepted w c = elim (Bool-cases (ltb 0 w.demon.shutdown_requested)) [
  | inl asked ↦
      rw asked (record { exact = c.exact; same_limit = c.same_limit; bounded = c.bounded })
  | inr on ↦ rw on (elim (Bool-cases (is_full true w.demon)) [
    | inl full ↦
        rw full (record { exact = c.exact; same_limit = c.same_limit; bounded = c.bounded })
    | inr room ↦ rw room (admit-IsCounted limit accepted w false c (below_limit limit w c room))
  ])
]

advance-IsCounted :
    (limit : ℕ) (e : Event) (w : World) → IsCounted limit w → IsCounted limit (advance true e w)
unfolding shutdown_handler
advance-IsCounted limit (children_end n) w c = record {
  exact = omega (arith, child_count-zombie_killer (min n w.children) w.demon, c.exact);
  same_limit = max_children-zombie_killer (min n w.children) w.demon ∙ c.same_limit;
  bounded = λ h. omega (arith, c.bounded h);
}
advance-IsCounted limit (asked_to_stop s) w c = record {
  exact = c.exact;
  same_limit = c.same_limit;
  bounded = c.bounded;
}
advance-IsCounted limit (turned accepted) w c = turn-IsCounted limit accepted w c

-- A forking parent whose count is the number of its children, at most a limit where that is not
-- 0, meets any events in any order - children that end, requests to stop, turns of the loop with
-- any results of `accept` and `fork`: the count stays the number of its children, and they stay
-- within the limit.
pub advance_all-IsCounted :
    (limit : ℕ) (events : List Event) (w : World)
    → IsCounted limit w
    → IsCounted limit (advance_all true events w)
advance_all-IsCounted limit [] w c = c
advance_all-IsCounted limit (e ∷ events) w c =
    advance_all-IsCounted limit events (advance true e w) (advance-IsCounted limit e w c)

pub shutdown_requested-zombie_killer :
    (n : ℕ) (d : Demon) → (zombie_killer n d).shutdown_requested ≡ d.shutdown_requested
unfolding zombie_killer
shutdown_requested-zombie_killer zero d = refl
shutdown_requested-zombie_killer (suc n) d =
    shutdown_requested-zombie_killer n (record d { child_count = d.child_count - 1 })

-- Once a signal that is not 0 has asked for the end, and however many children have ended since,
-- the next turn of the loop returns -1 before it accepts a client, also at the limit of children.
pub turn_stops :
    (forking : Bool) (accepted : Accept) (s n : ℕ) (d : Demon)
    → 0 < s
    → turn forking accepted (zombie_killer n (shutdown_handler s d))
      ≡ stops (zombie_killer n (shutdown_handler s d))
unfolding turn shutdown_handler
turn_stops forking accepted s n d h =
    rw (shutdown_requested-zombie_killer n (record d { shutdown_requested = s }), lt→ltb 0 s h) refl
