-- ===== src/Certcheck/Throttle.antt =====
-- The throttle of `check_cert_expiry_throttled` (certcheck.c).
use mudit_m.Base.{
  ℤ, ℕ, ◌-◌, ◌≤◌, ◌<◌, ◌≡◌, refl, true, Option, none, some, arith, ◌||◌, ◌&&◌, Bool-cases, inl, inr,
}
use mudit_m.Certcheck.{
  Expiry, Notice, Stamp, FileCalls, truncated, put_byte, interval, is_fine, is_recent,
  cert_days_remaining, check_cert_expiry_throttled, cert_throttle_touch,
}

-- A file with a byte, stamped at a time, is recent until the interval is over.
stamped_recent :
    (now later : ℕ) (days : ℤ) (file : Stamp)
    → 0 < file.st_size
    → file.st_mtime ≡ now
    → now ≤ later
    → later - now < interval days
    → is_recent later days file ≡ true
stamped_recent now later days file s e h k = ground arith

stamped_quiet :
    (calls : FileCalls) (now later : ℕ) (expiry : Expiry) (file : Stamp)
    → calls.fstat ≡ true
    → 0 < file.st_size
    → file.st_mtime ≡ now
    → now ≤ later
    → later - now < interval (cert_days_remaining expiry)
    → (check_cert_expiry_throttled calls later expiry (some file)).0 ≡ none
unfolding check_cert_expiry_throttled
stamped_quiet calls now later expiry file stats s e h k =
    elim (Bool-cases (is_fine (cert_days_remaining expiry))) [
      | inl fine ↦ rw fine refl
      | inr due ↦
          rw (due, stats, stamped_recent now later (cert_days_remaining expiry) file s e h k) refl
    ]

-- A byte that was put_byte is there, at its time.
put_byte_lem :
    (now : ℕ) (file : Stamp)
    → (0 < (put_byte true now file).st_size) × ((put_byte true now file).st_mtime ≡ now)
put_byte_lem now file = (ground arith, refl)

-- A session has given a notice on the certificate, with a throttle file that it could open, lock
-- and write to, whether it could read and cut the file or not: a session that comes later, and
-- before the interval of its own remaining days is over, gives none if it can read the file's
-- size and time.
pub throttled_once :
    (calls calls' : FileCalls) (now later : ℕ) (expiry expiry' : Expiry) (file : Stamp)
    (notice : Notice)
    → calls.write ≡ true
    → calls'.fstat ≡ true
    → (check_cert_expiry_throttled calls now expiry (some file)).0 ≡ some notice
    → now ≤ later
    → later - now < interval (cert_days_remaining expiry')
    → (check_cert_expiry_throttled calls' later expiry'
        (check_cert_expiry_throttled calls now expiry (some file)).1).0
      ≡ none
unfolding check_cert_expiry_throttled
throttled_once calls calls' now later expiry expiry' file notice w stats e h k =
    let days = cert_days_remaining expiry in
    let stamp = put_byte_lem now (truncated calls.ftruncate now file) in
    elim (Bool-cases (is_fine days || (calls.fstat && is_recent now days file))) [
      | inl silent ↦ let q = rw silent at e in absurd (cc)
      | inr due ↦ rw (due, w) (stamped_quiet calls' now later expiry' _ stats stamp.0 stamp.1 h k)
    ]

-- The start of the program has touched the throttle file behind its notice: a session that comes
-- before the interval of its own remaining days is over, and can read the file's size and time,
-- gives none.
pub touched_once :
    (calls : FileCalls) (now later : ℕ) (expiry : Expiry) (file : Option Stamp)
    → calls.fstat ≡ true
    → now ≤ later
    → later - now < interval (cert_days_remaining expiry)
    → (check_cert_expiry_throttled calls later expiry (cert_throttle_touch true true now file)).0
      ≡ none
unfolding cert_throttle_touch
touched_once calls now later expiry file stats h k =
    stamped_quiet calls now later expiry _ stats (omega arith) refl h k
