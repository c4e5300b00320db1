-- ===== src/Debug.antt =====
-- debug.c: where the log goes, and the lines that are written to it.
use mudit_m.Base.{
  ℕ, ◌-◌, Bool, true, false, Option, none, some, List, [], ◌∷◌, ◌++◌, length, take, codes, decimal,
}
use mudit_m.Run.{Run, ok, exits}

pub data LogFile : Type 0 where
  to_stderr : LogFile
  appends_to : (pathname : List ℕ) → LogFile

-- `opens` is whether `fopen` gives a file.
unfoldable pub muditm_log_init : (pathname : Option (List ℕ)) → (opens : Bool) → Run LogFile
muditm_log_init none opens = ok to_stderr
muditm_log_init (some []) opens = ok to_stderr
muditm_log_init (some (b ∷ pathname)) true = ok (appends_to (b ∷ pathname))
muditm_log_init (some (b ∷ pathname)) false = exits

-- LOG_BUF_LEN.
abbrev pub log_buf_len : ℕ
log_buf_len = 8192

-- A line of the log: the time, which `asctime` ends with a newline that is cut off, the process and
-- the message. `vsnprintf` is given one byte less than `vbuf` has and ends its text with a NUL.
unfoldable pub muditm_log : (asctime : List ℕ) → (pid : ℕ) → (message : List ℕ) → List ℕ
muditm_log asctime pid message =
    take (length asctime - 1) asctime
    ++ (codes " ["
        ++ (decimal pid ++ (codes "] " ++ (take (log_buf_len - 1 - 1) message ++ (10 ∷ [])))))

-- A line of OpenSSL's, whose newline at the end is cut off, behind the text of the caller.
unfoldable pub muditm_ssl_err_cb : (str vbuf : List ℕ) → List ℕ
muditm_ssl_err_cb str vbuf = vbuf ++ (codes ": " ++ take (length str - 1) str)

-- The messages that are logged for the errors that OpenSSL has. `vsnprintf` is given one byte less
-- than `vbuf` has and ends its text with a NUL.
unfoldable pub muditm_sslerr : (errors : List (List ℕ)) → (text : List ℕ) → List (List ℕ)
muditm_sslerr [] text = []
muditm_sslerr (str ∷ errors) text =
    muditm_ssl_err_cb str (take (log_buf_len - 1 - 1) text) ∷ muditm_sslerr errors text
