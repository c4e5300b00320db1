-- ===== src/Main/Connect/Sockets.antt =====
-- The sockets that `game_connect` (muditm.c) opens.
use mudit_m.Base.{ℕ, ◌≡◌, refl, ap, Bool, true, false, Option, none, some, List, [], ◌∷◌, ◌++◌}
use mudit_m.Main.Connect.{Candidate, no_socket, refuses, connects, game_connect}

-- The sockets of the addresses up to the first that connects, in order.
abbrev pub opened : List Candidate → List ℕ
opened [] = []
opened (no_socket ∷ rest) = opened rest
opened (refuses s ∷ rest) = s ∷ opened rest
opened (connects s ∷ rest) = s ∷ []

abbrev pub as_list : Option ℕ → List ℕ
as_list none = []
as_list (some s) = s ∷ []

-- An address that connects.
abbrev pub any_connects : List Candidate → Bool
any_connects [] = false
any_connects (connects s ∷ rest) = true
any_connects (_ ∷ rest) = any_connects rest

abbrev pub is_some : Option ℕ → Bool
is_some none = false
is_some (some s) = true

-- Over any list of addresses, the sockets that were closed and then the one that is returned are
-- the sockets that were opened, in order, up to the first address that connects; one is returned
-- exactly if an address connects.
pub game_connect_closes :
    (candidates : List Candidate)
    → ((game_connect (some candidates)).1 ++ as_list (game_connect (some candidates)).0
        ≡ opened candidates)
      × (is_some (game_connect (some candidates)).0 ≡ any_connects candidates)
unfolding game_connect
game_connect_closes [] = (refl, refl)
game_connect_closes (no_socket ∷ rest) = game_connect_closes rest
game_connect_closes (refuses s ∷ rest) =
    let h = game_connect_closes rest in (ap (λ l. s ∷ l) h.0, h.1)
game_connect_closes (connects s ∷ rest) = (refl, refl)
