-- ===== src/Posix.antt =====
-- What the kernel and OpenSSL do at a connection's socket, as scripts of events: each entry is the
-- answer to one call, so a script is any behaviour of the peer and the network.
use mudit_m.Base.{ℕ, List, Option}

pub data Errno : Type 0 where
  eagain other_errno : Errno

-- What a read or a write returns: a count, or -1 with `errno`.
pub data Ret : Type 0 where
  count : ℕ → Ret
  failed : Errno → Ret

-- `again` is EAGAIN on a plain socket, and SSL_ERROR_WANT_READ under SSL.
pub data ReadEvent : Type 0 where
  arrived : List ℕ → ReadEvent
  again hangup : ReadEvent
  broken : Errno → ReadEvent

-- `accept n` takes up to n bytes. `blocked` is EAGAIN, or SSL_ERROR_WANT_WRITE under SSL.
pub data WriteEvent : Type 0 where
  accept : ℕ → WriteEvent
  blocked refused : WriteEvent

abbrev pub Address : Type 0
Address = Option (List ℕ × ℕ)

-- A socket: what is to come, how the next writes go (all bytes are accepted where the script ends),
-- what the peer has been sent, and the addresses as `inet_ntop` prints them, with their ports
-- (`none` where `getpeername` or `getsockname` fails).
pub record Wire : Type 0 where
  pub incoming : List ReadEvent
  pub outgoing : List WriteEvent
  pub sent : List ℕ
  pub peer : Address
  pub here : Address
