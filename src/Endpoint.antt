-- ===== src/Endpoint.antt =====
-- The endpoint of proxy.h: a side of the proxy with its socket, buffers, patterns and protocol
-- state; with it mccp.h's and handlers.h's types, `new_endpoint` and `close_endpoint` of proxy.c.
pub mod Sock
pub mod Stream
pub mod Io
pub mod Header
pub mod Delivery
pub mod Compressed
pub mod Codec
pub mod Frame
pub mod Reads
pub mod Inflates
pub mod Arrivals
pub mod Decodes
use Prim.Native.String.{String}
use mudit_m.Base.{ℕ, ◌^◌, Bool, true, false, Option, none, some, List, []}
use mudit_m.Libs.{Libs}
use mudit_m.Iobuf.{Iobuf, new_iobuf}
use mudit_m.Iostats.{IostatData, iostat_init, Timeval}
use mudit_m.Posix.{Wire}

-- `mccp_mode_t` without MCCP_MAX, a value that no endpoint takes.
pub data MccpMode : Type 0 where
  mccp_ignore mccp_disable mccp_enable : MccpMode

-- `mccp_nego_t`.
pub data MccpNego : Type 0 where
  nego_none nego_offered nego_accepted nego_refused : MccpNego

-- The functions that a `PatternAction` pointer may point to.
pub data PatternAction : Type 0 where
  redact_match remove_match mnes_request mnes_client_will mnes_client_wont mnes_does : PatternAction
  respond_dont respond_do respond_wont : PatternAction
  ignore_match mccp2_do mccp2_dont mccp2_sb_start : PatternAction

-- `struct pattern_data`; `none` is a NULL action. Its `len` is the length of `pat`.
pub record Pattern : Type 0 where
  pub pat : List ℕ
  pub action : Option PatternAction

-- EP_BUFSIZE.
abbrev pub ep_bufsize : ℕ
ep_bufsize = 2 ^ 16

-- A z_stream for input: zlib's state, and the bytes that wait at `next_in`.
pub record InStream (L : Libs) : Type 0 where
  pub state : L.Inflater
  pub next_in : List ℕ

-- `none` is a socket of -1, and a NULL stream or expression. The buffers `ziobuf` of the source are
-- work space: what lies in them between two calls is `next_in`. `wire` is what is at the socket.
pub record Endpoint (L : Libs) : Type 0 where
  pub name : String
  pub socket : Option ℕ
  pub ssl : Bool
  pub iobuf_in : Iobuf
  pub iobuf_out : Iobuf
  pub matching_enabled : Bool
  pub patterns : List Pattern
  pub re : Option L.Code
  pub mnes_state : ℕ
  pub mccp_mode : MccpMode
  pub mccp_nego : MccpNego
  pub mccp_in : Option (InStream L)
  pub mccp_out : Option L.Deflater
  pub sockstats : IostatData
  pub mccpstats : IostatData
  pub wire : Wire

module _ (L : Libs) where
  -- The socket's wire is what the caller's socket will show once it is set.
  unfoldable pub new_endpoint : (malloc : ℕ → List ℕ) → Timeval → Wire → Option String → Endpoint L
  unfolding new_iobuf iostat_init
  new_endpoint malloc now wire name = record {
    name = elim name [ none ↦ "unnamed" | some given ↦ given ];
    socket = none;
    ssl = false;
    iobuf_in = new_iobuf malloc ep_bufsize;
    iobuf_out = new_iobuf malloc ep_bufsize;
    matching_enabled = false;
    patterns = [];
    re = none;
    mnes_state = 0;
    mccp_mode = mccp_disable;
    mccp_nego = nego_none;
    mccp_in = none;
    mccp_out = none;
    sockstats = iostat_init now now now;
    mccpstats = iostat_init now now now;
    wire = wire;
  }

  unfoldable pub close_endpoint : Endpoint L → Endpoint L
  close_endpoint ep = record ep { ssl = false; socket = none }
