-- ===== src/Certcheck.antt =====
-- certcheck.c: what the expiry of the TLS certificate leads to, at the start of the program and, with
-- a throttle file, for each session. The certificate and the file are arguments.
pub mod Throttle
pub mod Path
use mudit_m.Base.{
  ℤ, pos, negsuc, is_negative, is_zero, is_below, ℕ, zero, suc, ◌+◌, ◌-◌, Bool, true, false, Option,
  none, some, ltb, leb, ◌==◌, ◌&&◌, ◌||◌, if◌then◌else◌,
}

-- What `ASN1_TIME_diff` finds of the certificate, or that it cannot be read.
pub data Expiry : Type 0 where
  unreadable : Expiry
  expires_in : (days seconds : ℤ) → Expiry

-- -1 if it cannot be read, -2 if it has expired.
unfoldable pub cert_days_remaining : Expiry → ℤ
cert_days_remaining unreadable = negsuc 0
cert_days_remaining (expires_in days seconds) =
    if is_negative days || (is_zero days && is_negative seconds) then negsuc 1 else days

pub data Notice : Type 0 where
  expired today : Notice
  soon : ℤ → Notice

-- The branches on -2, 0 and the rest of the days.
abbrev pub notice_of : ℤ → Notice
notice_of (negsuc n) = if n == 1 then expired else soon (negsuc n)
notice_of (pos n) = if n == 0 then today else soon (pos n)

-- What the check at the start does: nothing, a notice that ends the program, or a notice and a touch
-- of the throttle file.
pub data Outcome : Type 0 where
  quiet : Outcome
  fatal warned : Notice → Outcome

abbrev pub outcome_of : ℤ → Outcome
outcome_of (negsuc zero) = quiet
outcome_of (negsuc (suc n)) = if n == 0 then fatal expired else warned (soon (negsuc (suc n)))
outcome_of (pos n) =
    if n == 0 then warned today else if ltb n 30 then warned (soon (pos n)) else quiet

unfoldable pub check_cert_expiry : Expiry → Outcome
check_cert_expiry expiry = outcome_of (cert_days_remaining expiry)

-- The throttle file, if it can be opened and locked: its size and its time of change.
pub record Stamp : Type 0 where
  pub st_size : ℕ
  pub st_mtime : ℕ

-- The seconds of an hour or of a day.
abbrev pub interval : ℤ → ℕ
interval days = if is_below days 7 then 3600 else 86400

-- The last notice is not older than the interval. A time of change that lies ahead is none.
abbrev pub is_recent : ℕ → ℤ → Stamp → Bool
is_recent now days file =
    ltb 0 file.st_size && (leb file.st_mtime now && ltb (now - file.st_mtime) (interval days))

-- -1, or 30 days and more: the file is not even opened.
abbrev pub is_fine : ℤ → Bool
is_fine (negsuc n) = n == 0
is_fine (pos n) = leb 30 n

-- Which of the calls on the open file succeed.
pub record FileCalls : Type 0 where
  pub fstat : Bool
  pub ftruncate : Bool
  pub write : Bool

-- `ftruncate(fd, 0)`.
abbrev pub truncated : Bool → ℕ → Stamp → Stamp
truncated false now file = file
truncated true now file = record { st_size = 0; st_mtime = now }

-- The write of one byte at the start.
abbrev pub put_byte : Bool → ℕ → Stamp → Stamp
put_byte false now file = file
put_byte true now file = record {
  st_size = if file.st_size == 0 then 1 else file.st_size;
  st_mtime = now;
}

-- The notice that is given, and the file behind the call.
unfoldable pub check_cert_expiry_throttled :
    FileCalls → ℕ → Expiry → Option Stamp → Option Notice × Option Stamp
check_cert_expiry_throttled calls now expiry none = (none, none)
check_cert_expiry_throttled calls now expiry (some file) =
    let days = cert_days_remaining expiry in
    if is_fine days || (calls.fstat && is_recent now days file) then (none, some file) else (
      some (notice_of days),
      some (put_byte calls.write now (truncated calls.ftruncate now file)),
    )

-- `opens` and `writes` are what `open` and `write` answer. The file is cut to no bytes as it is opened.
unfoldable pub cert_throttle_touch : (opens writes : Bool) → ℕ → Option Stamp → Option Stamp
cert_throttle_touch false writes now file = file
cert_throttle_touch true false now file = some (record { st_size = 0; st_mtime = now })
cert_throttle_touch true true now file = some (record { st_size = 1; st_mtime = now })
