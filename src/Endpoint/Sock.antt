-- ===== src/Endpoint/Sock.antt =====
-- `read_endpoint_sock` and `write_endpoint_sock` of proxy.c: the socket itself, plain or under SSL.
use mudit_m.Base.{
  ℕ, Bool, true, false, List, [], ◌∷◌, ◌++◌, length, take, drop, min, ◌==◌, if◌then◌else◌,
}
use mudit_m.Libs.{Libs}
use mudit_m.Posix.{
  eagain, other_errno, Ret, count, failed, ReadEvent, arrived, again, hangup, broken, WriteEvent,
  accept, blocked, refused,
}
use mudit_m.Iostats.{iostat_incr}
use mudit_m.Run.{Run, ok, spins, ◌>>=◌}
use mudit_m.Endpoint.{Endpoint}

-- What is left of a chunk of which `n` bytes were read.
abbrev pub keep : List ℕ → List ReadEvent → List ReadEvent
keep [] rest = rest
keep (b ∷ bytes) rest = arrived (b ∷ bytes) ∷ rest

-- One read of up to `n` bytes. Under SSL the loop calls again on WANT_READ; with nothing to come it
-- never ends, and a plain read returns EAGAIN. A read of no bytes returns 0 and takes nothing.
unfoldable pub read_script : Bool → List ReadEvent → ℕ → Run (Ret × List ℕ × List ReadEvent)
read_script true [] n = spins
read_script false [] n = ok (failed eagain, [], [])
read_script true (again ∷ rest) n = read_script true rest n
read_script false (again ∷ rest) n = ok (failed eagain, [], rest)
read_script ssl (hangup ∷ rest) n = ok (count 0, [], hangup ∷ rest)
read_script ssl (broken e ∷ rest) n = ok (failed e, [], rest)
read_script ssl (arrived bytes ∷ rest) n =
    if n == 0
    then ok (count 0, [], arrived bytes ∷ rest)
    else ok (count (length (take n bytes)), take n bytes, keep (drop n bytes) rest)

-- One write of `n` bytes. Under SSL the loop calls again on WANT_WRITE.
unfoldable pub write_script : Bool → List WriteEvent → ℕ → Ret × List WriteEvent
write_script ssl [] n = (count n, [])
write_script ssl (accept m ∷ rest) n = (count (min m n), rest)
write_script true (blocked ∷ rest) n = write_script true rest n
write_script false (blocked ∷ rest) n = (failed eagain, rest)
write_script ssl (refused ∷ rest) n = (failed other_errno, rest)

-- The bytes of `buf` that a write which returned `ret` has put on the wire.
abbrev pub written : Ret → List ℕ → List ℕ
written (count n) buf = take n buf
written (failed _) buf = []

module _ (L : Libs) where
  unfoldable pub read_endpoint_sock : Endpoint L → ℕ → Run (Ret × List ℕ × Endpoint L)
  read_endpoint_sock ep n = do
    (readsize, bytes, rest) ← read_script ep.ssl ep.wire.incoming n
    ok (
      readsize,
      bytes,
      record ep {
        sockstats = iostat_incr ep.sockstats readsize (count 0);
        wire = record (ep.wire) { incoming = rest };
      },
    )

  unfoldable pub write_endpoint_sock : Endpoint L → List ℕ → Ret × Endpoint L
  write_endpoint_sock ep buf =
      let (writesize, rest) = write_script ep.ssl ep.wire.outgoing (length buf) in
      (
        writesize,
        record ep {
          sockstats = iostat_incr ep.sockstats (count 0) writesize;
          wire = record (ep.wire) { outgoing = rest; sent = ep.wire.sent ++ written writesize buf };
        },
      )
