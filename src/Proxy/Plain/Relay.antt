-- ===== src/Proxy/Plain/Relay.antt =====
-- `muditm_proxy` (proxy.c) as a whole, on text without Telnet commands.
use mudit_m.Base.{
  ◌≡◌, ◌≢◌, refl, sym, ap, ◌∙◌, Bool, true, false, none, List, ◌++◌, if◌then◌else◌, ◌&&◌, All,
}
use mudit_m.Libs.{Libs}
use mudit_m.Posix.{failed, other_errno}
use mudit_m.Run.{ok, Returns, Returns-bind, Returns-weaken}
use mudit_m.Iobuf.Bounds.{IsValid}
use mudit_m.Iostats.{Timeval, IostatData, iostat_init}
use mudit_m.Conf.{KeyFile, get_conf_boolean}
use mudit_m.Endpoint.{Endpoint, Pattern, MccpMode, mccp_ignore, mccp_disable, mccp_enable}
use mudit_m.Endpoint.Reads.{Answers}
use mudit_m.Handlers.{enable_matching}
use mudit_m.Handlers.Mccp.{offer_compression, offer_in_mode}
use mudit_m.Handlers.Patterns.{
  install, add_game_patterns, add_client_patterns, mnes_game_patterns, mnes_client_patterns,
}
use mudit_m.Proxy.Transparent.{IsClear}
use mudit_m.Proxy.Piped.{unread, IsSource}
use mudit_m.Proxy.Flows.{Flowed, FlowedBy, FlowedBy-trans, poll_loop-Flowed}
use mudit_m.Proxy.Start.{Compiles, game_list, client_list}
use mudit_m.Proxy.Session.{
  deadline_at, Round, Session, Progress, running, left, start_proxy, poll_loop, muditm_proxy,
}
use mudit_m.Proxy.Plain.{
  MatchesTexts, IsText, AllCommands, AllCommands-append, mccp_game-AllCommands,
  mccp_client-AllCommands, commands-Harmless, commands-Complete,
}

-- A side from which only text comes, read and written without compression, before the program's
-- patterns are installed on it.
pub record IsTexting (L : Libs) (ep : Endpoint L) : Type 0 where
  pub text : All IsText (unread L ep)
  pub commands : AllCommands ep.patterns
  pub valid : IsValid ep.iobuf_in
  pub plain_in : ep.mccp_in ≡ none
  pub live : Answers L ep
  pub clear : IsClear L ep
  pub empty : ep.iobuf_in.tail ≡ 0

module _ (L : Libs) where
  -- A side that texts, with its patterns: what is unread and what was sent are as they were.
  record Installed (ep ep' : Endpoint L) : Type 0 where
    source : IsSource L IsText ep'
    clear : IsClear L ep'
    same_unread : unread L ep' ≡ unread L ep
    same_sent : ep'.wire.sent ≡ ep.wire.sent
    same_mode : ep'.mccp_mode ≡ ep.mccp_mode
    empty : ep'.iobuf_in.tail ≡ 0

  install-Installed :
      (patterns : List Pattern) (ep : Endpoint L) (c : Compiles L patterns)
      → MatchesTexts L c.code patterns
      → AllCommands patterns
      → IsTexting L ep
      → Returns (Installed ep) (install L patterns ep)
  unfolding enable_matching
  install-Installed patterns ep c m h t = rw c.compiled (record {
    source = record {
      rules = record { code = c.code; is_set = refl; inside = c.inside };
      harmless = commands-Harmless L c.code patterns m h;
      complete = commands-Complete L c.code patterns m h;
      all = t.text;
      valid = t.valid;
      plain_in = t.plain_in;
      live = t.live;
    };
    clear = record { plain = t.clear.plain; open_wire = t.clear.open_wire };
    same_unread = refl;
    same_sent = refl;
    same_mode = refl;
    empty = t.empty;
  })

  no_offer : (ep : Endpoint L) → ep.mccp_mode ≢ mccp_enable → offer_compression L ep ≡ ok ep
  unfolding offer_compression
  no_offer ep h = in_mode ep.mccp_mode h
    where
      in_mode : (mode : MccpMode) → mode ≢ mccp_enable → offer_in_mode L mode ep ≡ ok ep
      in_mode mccp_ignore h = refl
      in_mode mccp_disable h = refl
      in_mode mccp_enable h = absurd (h refl)

  -- The two sides that the proxy is given, as a session.
  abbrev pub met : Endpoint L → Endpoint L → Session L
  met client game = record {
    client = client;
    game = game;
    mnes_deadline = deadline_at (record { tv_sec = 0; tv_nsec = 0 });
  }

  both-Installed :
      (client game client' game' : Endpoint L)
      → Installed client client'
      → Installed game game'
      → Flowed L IsText (met client game) (met client' game')
  both-Installed client game client' game' c g = record {
    to_game =
        ap (λ t. t ++ unread L client') g.same_sent ∙ ap (λ t. game.wire.sent ++ t) c.same_unread;
    to_client =
        ap (λ t. t ++ unread L game') c.same_sent ∙ ap (λ t. client.wire.sent ++ t) g.same_unread;
    pipe = record {
      client_source = c.source;
      game_source = g.source;
      client_clear = c.clear;
      game_clear = g.clear;
      client_empty = c.empty;
      game_empty = g.empty;
    };
  }

  -- Statistics are started anew.
  restarted :
      (ep ep' : Endpoint L) (a b : IostatData)
      → Installed ep ep'
      → Installed ep (record ep' { sockstats = a; mccpstats = b })
  restarted ep ep' a b i = record {
    source = record {
      rules = record {
        code = i.source.rules.code;
        is_set = i.source.rules.is_set;
        inside = i.source.rules.inside;
      };
      harmless = i.source.harmless;
      complete = i.source.complete;
      all = i.source.all;
      valid = i.source.valid;
      plain_in = i.source.plain_in;
      live = i.source.live;
    };
    clear = record { plain = i.clear.plain; open_wire = i.clear.open_wire };
    same_unread = i.same_unread;
    same_sent = i.same_sent;
    same_mode = i.same_mode;
    empty = i.empty;
  }

  begun :
      (b : Bool) (s s' : Session L)
      → Flowed L IsText s s'
      → FlowedBy L IsText s (if b then running s' else left (failed other_errno) s')
  begun true s s' f = f
  begun false s s' f = f

  start_proxy-Flowed :
      (gkf : KeyFile) (now : Timeval) (nonblocking : Bool × Bool) (client game : Endpoint L)
      (c : Compiles L (client_list L client)) (g : Compiles L (game_list L game))
      → MatchesTexts L c.code (client_list L client)
      → MatchesTexts L g.code (game_list L game)
      → IsTexting L client
      → IsTexting L game
      → client.mccp_mode ≢ mccp_enable
      → get_conf_boolean gkf "muditm" "newenv_immediate_ip" false ≡ false
      → Returns
          (FlowedBy L IsText (met client game))
          (start_proxy L gkf now nonblocking client game)
  unfolding start_proxy add_game_patterns add_client_patterns
  start_proxy-Flowed gkf now (client_ok, game_ok) client game c g mc mg tc tg off quiet =
      Returns-bind (Installed game) _ (install L (game_list L game) game) _
        (install-Installed (game_list L game) game g mg
          (AllCommands-append game.patterns _ tg.commands (
            AllCommands-append mnes_game_patterns _ (refl, (refl, (refl, tt)))
              (mccp_game-AllCommands game.mccp_mode)))
          tg)
        (λ game1 ig.
          Returns-bind (Installed client) _ (install L (client_list L client) client) _
            (install-Installed (client_list L client) client c mc
              (AllCommands-append client.patterns _ tc.commands (
                AllCommands-append mnes_client_patterns _ (refl, (refl, tt))
                  (mccp_client-AllCommands client.mccp_mode)))
              tc)
            (λ client1 ic.
              rw
                (
                  no_offer (record client1 { sockstats = iostat_init now now now })
                      (λ e. off (sym ic.same_mode ∙ e)),
                  quiet,
                )
                (begun (client_ok && game_ok) (met client game) _ (
                  both-Installed client game _ _ (restarted client client1 _ _ ic)
                    (restarted game game1 _ _ ig)))))

  -- Two sides from which only text comes (no byte IAC), read and written without compression,
  -- with valid and empty inputs, sockets that take all bytes and patterns that all start with
  -- IAC; no compression offered to the client, no report of the address and no fallback
  -- configured; expressions that PCRE2 compiles and that match the texts of their patterns only:
  -- with any rounds `muditm_proxy` returns, and in both directions the bytes sent to a side and
  -- then those still to come from the other are the ones that were, in order, with nothing left
  -- in the inputs.
  pub muditm_proxy-Flowed :
      (gkf : KeyFile) (now : Timeval) (nonblocking : Bool × Bool) (rounds : List Round)
      (client game : Endpoint L) (c : Compiles L (client_list L client))
      (g : Compiles L (game_list L game))
      → MatchesTexts L c.code (client_list L client)
      → MatchesTexts L g.code (game_list L game)
      → IsTexting L client
      → IsTexting L game
      → client.mccp_mode ≢ mccp_enable
      → get_conf_boolean gkf "muditm" "newenv_immediate_ip" false ≡ false
      → get_conf_boolean gkf "muditm" "newenv_fallback" false ≡ false
      → Returns
          (FlowedBy L IsText (met client game))
          (muditm_proxy L gkf now nonblocking rounds client game)
  unfolding muditm_proxy
  muditm_proxy-Flowed gkf now nonblocking rounds client game c g mc mg tc tg off quiet patient =
      Returns-bind (FlowedBy L IsText (met client game)) _
        (start_proxy L gkf now nonblocking client game) _
        (start_proxy-Flowed gkf now nonblocking client game c g mc mg tc tg off quiet)
        (λ progress f. onwards progress f)
    where
      onwards :
          (progress : Progress L)
          → FlowedBy L IsText (met client game) progress
          → Returns (FlowedBy L IsText (met client game)) (elim progress [
            | left ret s ↦ ok (left ret s)
            | running s ↦ poll_loop L gkf rounds s
          ])
      onwards (left ret s) f = f
      onwards (running s) f =
          Returns-weaken (FlowedBy L IsText s) _ (poll_loop L gkf rounds s)
            (poll_loop-Flowed L IsText gkf rounds s patient f.pipe)
            (λ progress k. FlowedBy-trans L IsText (met client game) s progress f k)
