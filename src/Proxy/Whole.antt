-- ===== src/Proxy/Whole.antt =====
-- `muditm_proxy` (proxy.c) as a whole, on sockets that take all bytes and with no compression offered
-- to the client.
use mudit_m.Libs.{Libs}
use mudit_m.Run.{Returns}
use mudit_m.Endpoint.{Endpoint}
use mudit_m.Proxy.Session.{Session}
