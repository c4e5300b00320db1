-- ===== src/Iostats.antt =====
-- iostats.c and iostats.h: the byte counters of a connection. `gettimeofday` is an argument. A
-- `long` counter is a plain number: no run of the program counts 2^63 bytes.
pub mod Print
use mudit_m.Base.{ℕ, ◌+◌}
use mudit_m.Posix.{Ret, count, failed}

pub record Timeval : Type 0 where
  pub tv_sec : ℕ
  pub tv_usec : ℕ

-- The fields `in` and `out` of the source: `in` is a reserved word here.
pub record IostatCounter : Type 0 where
  pub ts : Timeval
  pub bytes_in : ℕ
  pub bytes_out : ℕ

pub record IostatData : Type 0 where
  pub lifetime : IostatCounter
  pub checkpoint : IostatCounter
  pub rate : IostatCounter

-- MAX(0, n).
abbrev pub max_zero : Ret → ℕ
max_zero (count n) = n
max_zero (failed _) = 0

unfoldable pub iostat_counter_init : Timeval → IostatCounter
iostat_counter_init now = record { ts = now; bytes_in = 0; bytes_out = 0 }

unfoldable pub iostat_init : Timeval → Timeval → Timeval → IostatData
unfolding iostat_counter_init
iostat_init now later last = record {
  lifetime = iostat_counter_init now;
  checkpoint = iostat_counter_init later;
  rate = iostat_counter_init last;
}

unfoldable pub iostat_incr : IostatData → Ret → Ret → IostatData
iostat_incr ios n m = record ios {
  lifetime = record (ios.lifetime) {
    bytes_in = ios.lifetime.bytes_in + max_zero n;
    bytes_out = ios.lifetime.bytes_out + max_zero m;
  };
}
