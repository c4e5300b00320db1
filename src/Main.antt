-- ===== src/Main.antt =====
-- `main` of muditm.c: the options, the configuration, and the order of the calls up to the proxy.
pub mod Connect
pub mod Session
pub mod Stats
pub mod Program
use mudit_m.Base.{
  ℤ, pos, ℕ, ◌+◌, Bool, true, false, ◌||◌, Option, none, some, List, [], ◌∷◌, codes, same_text,
  if◌then◌else◌,
}
use mudit_m.Conf.{KeyFile, get_conf_string, get_conf_int, get_conf_boolean}

-- What `getopt_long` returns, one call after the other.
pub data Opt : Type 0 where
  config_file : List ℕ → Opt
  debug version help : Opt

-- What the options come to: a run, or a text that is printed before the program ends well.
pub data Parsed : Type 0 where
  runs : (configfilename : List ℕ) (debug : Bool) → Parsed
  prints_version prints_usage : Parsed

-- The `while(1)` over the options; the last file name counts.
unfoldable pub parse_options : List Opt → Option (List ℕ) → Bool → Parsed
parse_options [] none debugging = runs (codes "/etc/muditm.conf") debugging
parse_options [] (some name) debugging = runs name debugging
parse_options (config_file name ∷ opts) filename debugging =
    parse_options opts (some name) debugging
parse_options (debug ∷ opts) filename debugging = parse_options opts filename true
parse_options (version ∷ opts) filename debugging = prints_version
parse_options (help ∷ opts) filename debugging = prints_usage

-- The variables that `main` sets from the file.
pub record Settings : Type 0 where
  pub listening_port : ℤ
  pub listen_backlog : ℤ
  pub max_children : ℤ
  pub demon : Bool
  pub client_security : List ℕ
  pub game_security : List ℕ
  pub game_host : List ℕ
  pub game_service : List ℕ
  pub cert_file : List ℕ
  pub key_file : List ℕ
  pub chain_file : List ℕ
  pub log_file : Option (List ℕ)
  pub client_compression : List ℕ
  pub game_compression : List ℕ
  pub stunnelproxy : Bool

-- `debug` keeps the program in the foreground.
unfoldable pub settings_of : KeyFile → Bool → Settings
settings_of gkf debugging = record {
  listening_port = get_conf_int gkf "muditm" "listen" (pos 4143);
  listen_backlog = get_conf_int gkf "muditm" "listen-backlog" (pos 16);
  max_children = get_conf_int gkf "muditm" "max-children" (pos 0);
  demon = if debugging then false else get_conf_boolean gkf "muditm" "demon" true;
  client_security = get_conf_string gkf "client" "security" (codes "none");
  game_security = get_conf_string gkf "game" "security" (codes "none");
  game_host = get_conf_string gkf "game" "host" (codes "::");
  game_service = get_conf_string gkf "game" "service" (codes "4000");
  cert_file = get_conf_string gkf "ssl" "cert" (codes "cert.pem");
  key_file = get_conf_string gkf "ssl" "key" (codes "key.pem");
  chain_file = get_conf_string gkf "ssl" "chain" [];
  log_file = gkf.get_string "muditm" "log-file";
  client_compression = get_conf_string gkf "client" "compression" (codes "enable");
  game_compression = get_conf_string gkf "game" "compression" (codes "enable");
  stunnelproxy = get_conf_boolean gkf "muditm" "stunnelproxy" false;
}

abbrev pub is_ssl : List ℕ → Bool
is_ssl security = same_text security (codes "SSL")

-- The test before the certificate is looked at.
abbrev pub uses_ssl : Settings → Bool
uses_ssl s = is_ssl s.client_security || is_ssl s.game_security
