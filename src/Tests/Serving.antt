-- ===== src/Tests/Serving.antt =====
-- The theorems on the listener of muditm.c and on certcheck.c, applied.
use mudit_m.Base.{pos, some, none, ◌≡◌, refl, true, false, List, [], ◌∷◌, arith, codes, ◌++◌}
use mudit_m.Certcheck.{
  FileCalls, Expiry, expires_in, soon, cert_days_remaining, check_cert_expiry_throttled,
}
use mudit_m.Certcheck.Path.{throttle_name, cert_throttle_path, cert_throttle_path_lem}
use mudit_m.Certcheck.Throttle.{throttled_once}
use mudit_m.Demon.{client, in_parent, interrupted}
use mudit_m.Demon.Children.{
  World, Event, children_end, asked_to_stop, turned, advance_all, IsCounted, advance_all-IsCounted,
}

abbrev fresh : World
fresh = record {
  demon = record { child_count = 0; max_children = 2; shutdown_requested = 0; at_capacity = false };
  children = 0;
}

abbrev events : List Event
events =
    turned (client 5 in_parent)
    ∷ turned (client 6 in_parent)
    ∷ turned (client 7 in_parent)
    ∷ children_end 1
    ∷ turned interrupted
    ∷ asked_to_stop 15
    ∷ []

advance_all-IsCounted_example : IsCounted 2 (advance_all true events fresh)
advance_all-IsCounted_example =
    advance_all-IsCounted 2 events fresh
      (record { exact = refl; same_limit = refl; bounded = λ h. omega arith })

abbrev in_a_week : Expiry
in_a_week = expires_in (pos 5) (pos 100)

abbrev all_well : FileCalls
all_well = record { fstat = true; ftruncate = true; write = true }

abbrev not_cut : FileCalls
not_cut = record { fstat = true; ftruncate = false; write = true }

throttled_once_example :
    (check_cert_expiry_throttled all_well 9000 in_a_week
      (check_cert_expiry_throttled not_cut 8000 in_a_week
        (some (record { st_size = 0; st_mtime = 7990 }))).1).0
    ≡ none
unfolding check_cert_expiry_throttled cert_days_remaining
throttled_once_example =
    throttled_once not_cut all_well 8000 9000 in_a_week in_a_week
      (record { st_size = 0; st_mtime = 7990 }) (soon (pos 5)) refl refl refl (omega arith)
      (omega arith)

cert_throttle_path_lem_example :
    cert_throttle_path (codes "/etc/muditm" ++ (b'/' ∷ codes "cert.pem")) 4096
    ≡ (codes "/etc/muditm" ++ (b'/' ∷ [])) ++ throttle_name
cert_throttle_path_lem_example =
    cert_throttle_path_lem (codes "/etc/muditm") (codes "cert.pem") 4096 (ground arith)
      (omega arith) (omega arith)
