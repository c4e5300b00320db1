-- ===== src/Tests/Logging.antt =====
-- The theorem on the statistics' log lines (muditm.c, iostats.c), applied.
use mudit_m.Base.{
  ℕ, ◌+◌, ◌-◌, ◌*◌, ◌≡◌, true, List, [], ◌∷◌, replicate, length-replicate, codes, ltb,
  if◌then◌else◌, arith,
}
use mudit_m.Run.{ok}
use mudit_m.Iostats.{Timeval, IostatData}
use mudit_m.Iostats.Print.{Double}
use mudit_m.Main.Stats.{sock_texts, mccp_texts, ratio_texts, log_endpoint_stats}
use mudit_m.Main.Stats.Lines.{IsShort, PrintsShort, joined}
use mudit_m.Main.Stats.Bounds.{log_endpoint_stats_lem}
use mudit_m.Tests.Sides.{epoch}

-- A `double` that prints as its first digit, or as one that stands for more.
abbrev one_digit : ℕ → List ℕ
one_digit w = (if ltb w 10 then b'0' + w else b'+') ∷ []

abbrev whole_numbers : Double
whole_numbers = record {
  W = ℕ;
  of_long = λ n. n;
  to_long = λ w. w;
  plus = λ a b. a + b;
  minus = λ a b. a - b;
  times = λ a b. a * b;
  over = λ a b. a;
  below = λ a b. ltb a b;
  print = λ digits w. one_digit w;
}

one_digit-IsShort : (w : ℕ) → IsShort 400 (one_digit w)
one_digit-IsShort w = record { whole = ground arith; short = ground arith }

whole_numbers-PrintsShort : PrintsShort whole_numbers
whole_numbers-PrintsShort = record { short = λ digits w h. one_digit-IsShort w }

abbrev traffic : IostatData
traffic = record {
  lifetime = record { ts = epoch; bytes_in = 5; bytes_out = 2000 };
  checkpoint = record { ts = epoch; bytes_in = 0; bytes_out = 0 };
  rate = record { ts = epoch; bytes_in = 0; bytes_out = 0 };
}

abbrev later : Timeval
later = record { tv_sec = 90; tv_usec = 0 }

abbrev stack : List ℕ
stack = replicate 8192 7

log_endpoint_stats_lem_example :
    log_endpoint_stats whole_numbers stack true (codes "Game") later traffic traffic
    ≡ ok (
        joined (sock_texts whole_numbers (codes "Game") later traffic)
        ∷ joined (mccp_texts whole_numbers (codes "Game") later traffic)
        ∷ joined (ratio_texts whole_numbers (codes "Game") traffic traffic)
        ∷ [])
log_endpoint_stats_lem_example =
    log_endpoint_stats_lem whole_numbers whole_numbers-PrintsShort stack (codes "Game") true later
      traffic traffic (length-replicate {A = ℕ} 8192 7)
      (record { whole = ground arith; short = omega arith })
