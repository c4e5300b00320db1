-- ===== src/Endpoint/Header.antt =====
-- `port_endpoint` and `stunnel_proxy_header1` of proxy.c: the port of a peer, and the line that tells
-- the game's side of both addresses.
pub mod Reading
use mudit_m.Base.{
  ℕ, ◌+◌, Bool, true, false, ◌||◌, Option, none, some, List, [], ◌∷◌, ◌++◌, length, codes, decimal,
  if◌then◌else◌,
}
use mudit_m.Libs.{Libs}
use mudit_m.Posix.{Address}
use mudit_m.Run.{Run, ok, in_bounds, stray, ◌>>=◌}
use mudit_m.Iobuf.{Iobuf, memcpy_tail, snprintf_tail}
use mudit_m.Endpoint.{Endpoint}
use mudit_m.Endpoint.Io.{starts, mapped, unmap}

abbrev pub port_of : Address → ℕ
port_of none = 0
port_of (some (text, port)) = port

module _ (L : Libs) where
  unfoldable pub port_endpoint : Endpoint L → ℕ
  port_endpoint ep = port_of ep.wire.peer

-- The format "PROXY %s %s %s %d %d\r\n".
unfoldable pub header_text : Bool → List ℕ → List ℕ → ℕ → ℕ → List ℕ
header_text ismapped srcaddr dstaddr sport dport =
    codes "PROXY "
    ++ ((if ismapped then codes "TCP4" else codes "TCP6")
        ++ (b' '
            ∷ (srcaddr
                ++ (b' '
                    ∷ (dstaddr
                        ++ (b' '
                            ∷ (decimal sport ++ (b' ' ∷ (decimal dport ++ (13 ∷ 10 ∷ []))))))))))

-- The text of the line for two addresses, as `inet_ntop` prints them; none if one is not to be had.
abbrev pub header_of : Address → Address → Option (List ℕ)
header_of none here = none
header_of (some peer) none = none
header_of (some (src, sport)) (some (dst, dport)) =
    some (header_text (starts mapped src || starts mapped dst) (unmap src) (unmap dst) sport dport)

-- What `snprintf` writes at the tail, and what it returns.
abbrev pub print_header : Option (List ℕ) → Iobuf → ℕ × Iobuf
print_header none out = (0, out)
print_header (some text) out = (length text, snprintf_tail out text)

module _ (L : Libs) where
  -- `*buf='\0'` first. The result is the count, and the buffer whose tail was printed to.
  unfoldable pub stunnel_proxy_header1 : Endpoint L → Iobuf → Run (ℕ × Iobuf)
  stunnel_proxy_header1 ep out = do
    cleared ← in_bounds stray (memcpy_tail out (0 ∷ []))
    ok (print_header (header_of ep.wire.peer ep.wire.here) cleared)
