-- ===== src/Conf.antt =====
-- The configuration: `get_conf_string`, `get_conf_int` and `get_conf_boolean` of muditm.c over
-- GLib's key file, which is a record of look-ups that may fail. `configure_compression` of mccp.c.
use Prim.Native.String.{String}
use mudit_m.Base.{ℕ, ℤ, Bool, Option, none, some, List, codes, same_text, if◌then◌else◌}
use mudit_m.Libs.{Libs}
use mudit_m.Endpoint.{Endpoint, mccp_ignore, mccp_disable, mccp_enable}

-- By group and key. `none` is a key that is not there or that does not parse. A number
-- may be negative.
pub record KeyFile : Type 0 where
  pub get_string : String → String → Option (List ℕ)
  pub get_integer : String → String → Option ℤ
  pub get_boolean : String → String → Option Bool
  pub get_string_list : String → String → Option (List (List ℕ))

-- What the file gives, or the default.
abbrev pub or_default {ℓ} : {A : Type ℓ} → Option A → A → A
or_default none def = def
or_default (some a) def = a

unfoldable pub get_conf_string : KeyFile → String → String → List ℕ → List ℕ
get_conf_string gkf group key def = or_default (gkf.get_string group key) def

unfoldable pub get_conf_int : KeyFile → String → String → ℤ → ℤ
get_conf_int gkf group key def = or_default (gkf.get_integer group key) def

unfoldable pub get_conf_boolean : KeyFile → String → String → Bool → Bool
get_conf_boolean gkf group key def = or_default (gkf.get_boolean group key) def

module _ (L : Libs) where
  unfoldable pub configure_compression : Endpoint L → List ℕ → Endpoint L
  configure_compression ep value =
      if same_text value (codes "ignore")
      then record ep { mccp_mode = mccp_ignore }
      else if same_text value (codes "disable")
      then record ep { mccp_mode = mccp_disable }
      else if same_text value (codes "enable")
      then record ep { mccp_mode = mccp_enable }
      else ep
