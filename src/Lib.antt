-- ===== src/Lib.antt =====
-- MUDitM, the TLS and protocol proxy for MUDs: a model of its data path and of its listener, and the
-- theorems about them.
--
-- A session of the proxy joins two endpoints, the client and the game. `muditm_proxy` (proxy.c)
-- installs patterns on both, polls their sockets, reads what has come into an input buffer, matches
-- the buffer against the side's patterns with PCRE2, sends what is not matched to the other side and
-- calls an action for what is. The actions (handlers.c, mccp.c) answer the telnet negotiations for
-- NEW-ENVIRON and MCCP2, and may put zlib between an endpoint and its socket.
--
--   Base       numbers, tests, lists and texts that the rest shares
--   Run        how a call ends: a value, a write outside of its memory, no return, or `exit`
--   Posix      sockets as scripts of events: any behaviour of a peer and of the network
--   Libs       zlib and PCRE2 as parameters, with what their manuals promise
--   Telnet     the constants of arpa/telnet.h and mccp.h
--   Iobuf      iobuf.c, iobuf.h: the buffers; a copy or a print at the tail, as the callers write it
--   Iostats    iostats.c, iostats.h: the counters of bytes; Iostats/Print has the rates and the printing,
--              over a `double` that is a parameter
--   Debug      debug.c: where the log goes, and its lines
--   Endpoint   proxy.h, and the endpoint's reads and writes of proxy.c and mccp.c; Endpoint/Header has
--              the PROXY line of proxy.c
--   Memory     the blocks that iobuf.c, handlers.c, mccp.c and proxy.c allocate and release
--   Conf       the look-ups of muditm.c in the key file, and `configure_compression` of mccp.c
--   Handlers   handlers.c and the actions of mccp.c; Handlers/Patterns has the lists of patterns
--   Main       `main` of muditm.c: options and settings; Main/Connect has the sockets and TLS contexts,
--              Main/Session the child from its client to the end of the proxy,
--              Main/Stats the log of its traffic, Main/Program the whole of it in order
--   Proxy      `muditm_proxy`: the matching loop and the service of a side; Proxy/Session has the
--              start, the fallback and the poll loop
--   Certcheck  certcheck.c: what the certificate's expiry leads to, and the throttle of its notices;
--              Certcheck/Path has the path of the throttle's file
--   Demon      `demonize` of muditm.c: the loop that accepts clients, and the count of its children;
--              Demon/Listening has the whole function with the signals that
--              come to it, Demon/Fatal the handler of fatal signals
--   Tests      the theorems at concrete inputs
--
-- An `Endpoint` is the struct of proxy.h, with the socket's events beside it (`wire`). The functions
-- keep the source's names, pass the endpoints along and return them changed; where the source takes
-- a buffer and a length, the model takes or returns the bytes. A use of memory past a block is
-- `overrun`: `overrun no_space` where a message is copied to an output buffer that has no space for it,
-- `overrun stray` anywhere else. A loop without end is `spins`. Numbers are natural, but for those of
-- the key file, the deadline and the certificate's days, which may be negative; `push_iobuf` and
-- `avail_iobuf` have the source's arithmetic modulo 2^64 and its conversion to `int` written out.
--
-- The matching loop, `inflate`'s loop and `deflate`'s loop run on fuel. The fuel is computed from the
-- state at the call: the length of the input and one; the bytes that wait and are still to come; what
-- zlib has still to put out. Each round of a loop lowers that number, so that the fuel is enough.
--
-- Memory is kept apart from the data: a heap is the list of the blocks that are there, an endpoint the
-- blocks that it points to, and an address is never given twice. An object of OpenSSL, PCRE2, GLib or
-- zlib is one block. To release a block that is not there is `overrun stray`, too.
--
-- Not modelled: the text of most log lines, the release of the settings at the end of `main`,
-- `iostat_new` and `iostat_free`, which nothing calls, and the inside of TLS. A TLS handshake is an
-- argument; under TLS a read calls again until bytes come, so that the theorems on services ask of a
-- peer under TLS that it hangs up in the end, whatever it sends before.
pub mod Base
pub mod Telnet
pub mod Run
pub mod Iobuf
pub mod Posix
pub mod Iostats
pub mod Libs
pub mod Endpoint
pub mod Conf
pub mod Handlers
pub mod Proxy
pub mod Debug
pub mod Memory
pub mod Main
pub mod Certcheck
pub mod Demon
pub mod Tests
