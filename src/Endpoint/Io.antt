-- ===== src/Endpoint/Io.antt =====
-- `read_endpoint`, `write_endpoint` and `flush_endpoint` of proxy.c, and `addr_endpoint`.
use mudit_m.Base.{ℕ, none, some, List, [], ◌∷◌, Bool, true, false, drop, ◌==◌, if◌then◌else◌, suc}
use mudit_m.Libs.{Libs}
use mudit_m.Posix.{Ret, count, Address}
use mudit_m.Iobuf.{Iobuf, pop_iobuf, len_iobuf, peek_iobuf}
use mudit_m.Run.{Run, ok, ◌>>=◌}
use mudit_m.Endpoint.{Endpoint}
use mudit_m.Endpoint.Sock.{read_endpoint_sock, write_endpoint_sock}
use mudit_m.Endpoint.Stream.{read_endpoint_compressed, write_endpoint_compressed}

-- The output buffer after a write that returned `ret`.
abbrev pub unsent : Ret → Iobuf → Iobuf
unsent (count (suc n)) iob = pop_iobuf iob (suc n)
unsent _ iob = iob

module _ (L : Libs) where
  unfoldable pub read_endpoint : Endpoint L → ℕ → Run (Ret × List ℕ × Endpoint L)
  read_endpoint ep n = elim ep.mccp_in [
    | none ↦ read_endpoint_sock L ep n
    | some _ ↦ read_endpoint_compressed L ep n
  ]

  unfoldable pub write_endpoint : Endpoint L → List ℕ → Run (Ret × Endpoint L)
  write_endpoint ep buf = elim ep.mccp_out [
    | none ↦ ok (write_endpoint_sock L ep buf)
    | some _ ↦ write_endpoint_compressed L ep buf
  ]

  unfoldable pub flush_endpoint : Endpoint L → Run (Ret × Endpoint L)
  flush_endpoint ep = do
    (ret, ep') ← write_endpoint ep (peek_iobuf ep.iobuf_out (len_iobuf ep.iobuf_out))
    ok (ret, record ep' { iobuf_out = unsent ret ep'.iobuf_out })

-- `strncmp(buf, prefix, strlen(prefix))` of zero.
abbrev pub starts : List ℕ → List ℕ → Bool
starts [] text = true
starts (p ∷ prefix) [] = false
starts (p ∷ prefix) (c ∷ text) = if p == c then starts prefix text else false

-- "::ffff:", which `inet_ntop` prints before an IPv4 address that is mapped to IPv6.
abbrev pub mapped : List ℕ
mapped = b':' ∷ b':' ∷ b'f' ∷ b'f' ∷ b'f' ∷ b'f' ∷ b':' ∷ []

unfoldable pub unmap : List ℕ → List ℕ
unmap text = if starts mapped text then drop 7 text else text

-- The text that is left in `buf`: empty if `getpeername` fails.
unfoldable pub addr_endpoint : Address → List ℕ
unfolding unmap
addr_endpoint none = []
addr_endpoint (some (text, port)) = unmap text
