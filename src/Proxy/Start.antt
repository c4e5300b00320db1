-- ===== src/Proxy/Start.antt =====
-- `muditm_proxy` (proxy.c) from its start: the installed patterns, the offer of compression, the
-- report of the address, and the poll loop.
use mudit_m.Base.{ℕ, ◌≡◌, refl, Bool, true, false, List, ◌++◌, if◌then◌else◌, codes, ◌&&◌}
use mudit_m.Libs.{Libs, DeflateLaws, InflateLaws, MatchesInside}
use mudit_m.Posix.{Ret, count, failed, other_errno}
use mudit_m.Run.{ok, Bounded, Bounded-bind, Bounded-call, Returns, Returns-weaken}
use mudit_m.Iostats.{Timeval, IostatData, iostat_init}
use mudit_m.Conf.{KeyFile, get_conf_boolean}
use mudit_m.Endpoint.Reads.{Answers}
use mudit_m.Endpoint.{Endpoint, Pattern, MccpMode, mccp_ignore, mccp_disable, mccp_enable}
use mudit_m.Endpoint.Io.{flush_endpoint, addr_endpoint}
use mudit_m.Handlers.{print_out, send_out, mnes_pair, enable_matching}
use mudit_m.Handlers.Bounds.{IsSound, Sent, send_out-Sent, print_out-Sent}
use mudit_m.Handlers.Mccp.{offer_compression, offer_in_mode, mccp2_offer}
use mudit_m.Handlers.Patterns.{
  compile_patterns, install, add_game_patterns, add_client_patterns, mnes_game_patterns,
  mnes_client_patterns, mccp_game_patterns, mccp_client_patterns,
}
use mudit_m.Proxy.Loop.{IsReady, IsReadySession, ReadyProgress, IsReady-same, poll_loop-Ready}
use mudit_m.Proxy.Session.{
  Round, Session, Progress, running, left, start_proxy, poll_loop, muditm_proxy,
}

-- PCRE2 compiles the text of a list, to an expression that it keeps to.
pub record Compiles (L : Libs) (patterns : List Pattern) : Type 0 where
  pub code : L.Code
  pub compiled : compile_patterns L patterns ≡ ok code
  pub inside : MatchesInside L code

-- The lists that are installed on an endpoint as the game's side and as the client's.
abbrev pub game_list : (L : Libs) → Endpoint L → List Pattern
game_list L ep = ep.patterns ++ (mnes_game_patterns ++ mccp_game_patterns ep.mccp_mode)

abbrev pub client_list : (L : Libs) → Endpoint L → List Pattern
client_list L ep = ep.patterns ++ (mnes_client_patterns ++ mccp_client_patterns ep.mccp_mode)

-- A side before its patterns are installed.
pub record IsFresh (L : Libs) (ep : Endpoint L) : Type 0 where
  pub sound : IsSound L ep
  pub live : Answers L ep

module _ (L : Libs) where
  pub installed :
      (patterns : List Pattern) (ep : Endpoint L)
      → IsFresh L ep
      → Compiles L patterns
      → Returns (IsReady L) (install L patterns ep)
  unfolding enable_matching
  installed patterns ep f c = rw c.compiled (record {
    sound = record { in_valid = f.sound.in_valid; out_valid = f.sound.out_valid };
    rules = record { code = c.code; is_set = refl; inside = c.inside };
    live = f.live;
  })

  -- Statistics are started anew, or a negotiation has begun.
  restarted :
      (ep : Endpoint L) (a b : IostatData)
      → IsReady L ep
      → IsReady L (record ep { sockstats = a; mccpstats = b })
  restarted ep a b r =
      IsReady-same L ep _ r (record { in_valid = r.sound.in_valid; out_valid = r.sound.out_valid })
        (record { same_re = refl; same_patterns = refl; answers = λ a. a })

module _ (L : Libs) (deflates : DeflateLaws L) where
  offer_compression-IsReady :
      (ep : Endpoint L) → IsReady L ep → Bounded (IsReady L) (offer_compression L ep)
  unfolding offer_compression
  offer_compression-IsReady ep r = in_mode ep.mccp_mode
    where
      in_mode : (mode : MccpMode) → Bounded (IsReady L) (offer_in_mode L mode ep)
      in_mode mccp_ignore = r
      in_mode mccp_disable = r
      in_mode mccp_enable =
          Bounded-bind (Sent L ep) _ (send_out L mccp2_offer ep) _
            (send_out-Sent L deflates ep mccp2_offer r.sound)
            (λ ep' k.
              IsReady-same L ep _ r
                (record { in_valid = k.sound.in_valid; out_valid = k.sound.out_valid })
                (record {
                  same_re = k.rules.same_re;
                  same_patterns = k.rules.same_patterns;
                  answers = k.rules.answers;
                }))

  -- The report to the game that is sent at once.
  reported :
      (text : List ℕ) (ep : Endpoint L)
      → IsReady L ep
      → Returns (λ (r : Ret × Endpoint L). IsReady L r.1) (flush_endpoint L (print_out L text ep))
  reported text ep r =
      Returns-weaken (λ x. Sent L ep x.1) _ (flush_endpoint L (print_out L text ep))
        (print_out-Sent L deflates ep text r.sound) (λ x k. IsReady-same L ep x.1 r k.sound k.rules)

  report_address :
      (at_once : Bool) (text : List ℕ) (ep : Endpoint L)
      → IsReady L ep
      → Returns
          (λ (r : Ret × Endpoint L). IsReady L r.1)
          (elim at_once [
            | false ↦ ok (count 0, ep)
            | true ↦ flush_endpoint L (print_out L text ep)
          ])
  report_address false text ep r = r
  report_address true text ep r = reported text ep r

  begun :
      (b : Bool) (s : Session L)
      → IsReadySession L s
      → ReadyProgress L (if b then running s else left (failed other_errno) s)
  begun true s k = k
  begun false s k = k

  pub start_proxy-Ready :
      (gkf : KeyFile) (now : Timeval) (nonblocking : Bool × Bool) (client game : Endpoint L)
      → IsFresh L client
      → IsFresh L game
      → Compiles L (client_list L client)
      → Compiles L (game_list L game)
      → Bounded (ReadyProgress L) (start_proxy L gkf now nonblocking client game)
  unfolding start_proxy add_game_patterns add_client_patterns
  start_proxy-Ready gkf now (client_ok, game_ok) client game fc fg cc_list cg_list =
      Bounded-call (IsReady L) _ (install L (game_list L game) game) _
        (installed L (game_list L game) game fg cg_list)
        (λ game1 g.
          Bounded-call (IsReady L) _ (install L (client_list L client) client) _
            (installed L (client_list L client) client fc cc_list)
            (λ client1 c.
              Bounded-bind (IsReady L) _
                (offer_compression L (record client1 { sockstats = iostat_init now now now })) _
                (offer_compression-IsReady _ (restarted L client1 _ _ c))
                (λ client2 c2.
                  Bounded-call (λ (r : Ret × Endpoint L). IsReady L r.1) _ _ _
                    (report_address (get_conf_boolean gkf "muditm" "newenv_immediate_ip" false)
                      (mnes_pair (codes "IPADDRESS") (addr_endpoint client2.wire.peer))
                      (record game1 { mccpstats = iostat_init now now now })
                      (restarted L game1 _ _ g))
                    (λ r k.
                      begun (client_ok && game_ok) _
                        (record { client_ready = c2; game_ready = k })))))

  pub muditm_proxy-Ready :
      (inflates : InflateLaws L) (gkf : KeyFile) (now : Timeval) (nonblocking : Bool × Bool)
      (rounds : List Round) (client game : Endpoint L)
      → IsFresh L client
      → IsFresh L game
      → Compiles L (client_list L client)
      → Compiles L (game_list L game)
      → Bounded (ReadyProgress L) (muditm_proxy L gkf now nonblocking rounds client game)
  unfolding muditm_proxy
  muditm_proxy-Ready inflates gkf now nonblocking rounds client game fc fg c g =
      Bounded-bind (ReadyProgress L) _ (start_proxy L gkf now nonblocking client game) _
        (start_proxy-Ready gkf now nonblocking client game fc fg c g)
        (λ progress k. onwards progress k)
    where
      onwards :
          (progress : Progress L)
          → ReadyProgress L progress
          → Bounded (ReadyProgress L) (elim progress [
            | left ret s ↦ ok (left ret s)
            | running s ↦ poll_loop L gkf rounds s
          ])
      onwards (left ret s) k = k
      onwards (running s) k = poll_loop-Ready L deflates inflates gkf rounds s k
