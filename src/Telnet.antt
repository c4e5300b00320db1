-- ===== src/Telnet.antt =====
-- The bytes of the telnet protocol that the program names: those of <arpa/telnet.h> (RFC 854 and
-- RFC 1572), and the MCCP options that mccp.h and handlers.h define.
use mudit_m.Base.{ℕ}

abbrev pub iac : ℕ
iac = 255

abbrev pub dont : ℕ
dont = 254

-- DO, a reserved word here.
abbrev pub do_cmd : ℕ
do_cmd = 253

abbrev pub wont : ℕ
wont = 252

abbrev pub will : ℕ
will = 251

abbrev pub sb : ℕ
sb = 250

abbrev pub se : ℕ
se = 240

abbrev pub telopt_new_environ : ℕ
telopt_new_environ = 39

abbrev pub telqual_is : ℕ
telqual_is = 0

abbrev pub telqual_send : ℕ
telqual_send = 1

abbrev pub new_env_var : ℕ
new_env_var = 0

abbrev pub new_env_value : ℕ
new_env_value = 1

abbrev pub telopt_mccp : ℕ
telopt_mccp = 85

abbrev pub telopt_mccp2 : ℕ
telopt_mccp2 = 86

abbrev pub telopt_mccp3 : ℕ
telopt_mccp3 = 87
