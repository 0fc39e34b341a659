-- ===== src/Constants.antt =====
-- The settings and protocol numbers of constants.py.
use Prim.Native.Nat.{bit_or}
use meet_your_match.Prelude.{ℕ, ◌/◌, ◌*◌, List, [], ◌∷◌}
use meet_your_match.Python.{Text}
use meet_your_match.Text.{codes}

abbrev pub max_match_size : ℕ
max_match_size = 2

abbrev pub max_registering : ℕ
max_registering = 1000

abbrev pub max_matchmaking_sessions : ℕ
max_matchmaking_sessions = 300

abbrev pub matchmaking_alive_time : ℕ
matchmaking_alive_time = 25

abbrev pub matchmake_round_time : ℕ
matchmake_round_time = 3

-- `range(7777, 8000)`: the first port is in, the last is out
abbrev pub accept_ports_from : ℕ
accept_ports_from = 7777

abbrev pub accept_ports_to : ℕ
accept_ports_to = 8000

abbrev pub cl_status_none : ℕ
cl_status_none = 0x0000

abbrev pub cl_status_register : ℕ
cl_status_register = 0x0001

abbrev pub cl_status_matching : ℕ
cl_status_matching = 0x0010

abbrev pub cl_status_matching_host : ℕ
cl_status_matching_host = 0x0030

abbrev pub cl_status_in_match : ℕ
cl_status_in_match = 0x0090

abbrev pub cl_status_in_match_host : ℕ
cl_status_in_match_host = 0x00b0

abbrev pub sv_error : ℕ
sv_error = 0xff00

abbrev pub sv_error_ip_banned : ℕ
sv_error_ip_banned = 0x0100

abbrev pub sv_error_not_registering : ℕ
sv_error_not_registering = 0x0200

abbrev pub sv_error_fast_poll_rate : ℕ
sv_error_fast_poll_rate = 0x0300

abbrev pub sv_error_ip_log_maxed : ℕ
sv_error_ip_log_maxed = 0x0400

abbrev pub sv_error_bad_group_size : ℕ
sv_error_bad_group_size = 0x0500

abbrev pub sv_error_mm_sessions_maxed : ℕ
sv_error_mm_sessions_maxed = 0x0700

abbrev pub sv_error_not_matching : ℕ
sv_error_not_matching = 0x0800

abbrev pub sv_error_matching_not_found : ℕ
sv_error_matching_not_found = 0x0900

abbrev pub sv_error_users_maxed : ℕ
sv_error_users_maxed = 0x0a00

abbrev pub sv_status_register_ok : ℕ
sv_status_register_ok = 0x0001

abbrev pub sv_status_matching_ok : ℕ
sv_status_matching_ok = 0x0002

abbrev pub sv_status_in_group : ℕ
sv_status_in_group = 0x0004

abbrev pub sv_status_group_update : ℕ
sv_status_group_update = 0x0010

abbrev pub sv_status_in_match : ℕ
sv_status_in_match = 0x0040

abbrev pub max_clbytes : ℕ
max_clbytes = 460

abbrev pub max_group_pack : ℕ
max_group_pack = max_clbytes / 22

-- this server's default IP
abbrev pub default_ip : Text
default_ip = codes "192.168.1.1"

abbrev pub max_running_sessions : ℕ
max_running_sessions = 10000

abbrev pub registration_port : ℕ
registration_port = 7778

abbrev pub matchmaking_port : ℕ
matchmaking_port = 7779

abbrev pub session_port : ℕ
session_port = 7780

abbrev pub cl_status_lat_check : ℕ
cl_status_lat_check = 0x0050

abbrev pub cl_status_initializing_host : ℕ
cl_status_initializing_host = 0x0070

abbrev pub sv_error_already_matching : ℕ
sv_error_already_matching = 0x0600

abbrev pub sv_status : ℕ
sv_status = 0x00ff

abbrev pub sv_status_lat_check : ℕ
sv_status_lat_check = 0x0008

abbrev pub sv_status_initializing_ok : ℕ
sv_status_initializing_ok = 0x0020

abbrev pub com_stun : ℕ
com_stun = 0

abbrev pub com_turn : ℕ
com_turn = 1

abbrev pub com_mixd : ℕ
com_mixd = 2

abbrev pub cl_encrypted : ℕ
cl_encrypted = 0x0001

abbrev pub cl_lat_max_low : ℕ
cl_lat_max_low = 0x0002

abbrev pub cl_lat_max_mid : ℕ
cl_lat_max_mid = 0x0004

abbrev pub cl_lat_max_oof : ℕ
cl_lat_max_oof = 0x0008

abbrev pub cl_addresses_latencies : ℕ
cl_addresses_latencies = 0x0010

abbrev pub cl_set_group_size : ℕ
cl_set_group_size = 0x0020

abbrev pub cl_relay_only : ℕ
cl_relay_only = 0x0040

abbrev pub cl_admin : ℕ
cl_admin = 0x0100

abbrev pub cl_unlock_poll_rate : ℕ
cl_unlock_poll_rate = bit_or 0x0200 cl_admin

abbrev pub cl_only_my_sessions : ℕ
cl_only_my_sessions = bit_or 0x0400 cl_admin

abbrev pub cl_multi_session : ℕ
cl_multi_session = bit_or 0x0800 cl_admin

abbrev pub cl_set_password : ℕ
cl_set_password = bit_or 0x1000 cl_admin

abbrev pub cl_only_my_traffic : ℕ
cl_only_my_traffic = bit_or 0x2000 cl_admin

abbrev pub cl_restore_defaults : ℕ
cl_restore_defaults = bit_or 0x8000 cl_admin

abbrev pub lat_turnover : ℕ
lat_turnover = 8

abbrev pub connect_turnover : ℕ
connect_turnover = lat_turnover * 4

abbrev pub connect_turnover_host : ℕ
connect_turnover_host = connect_turnover * 20

abbrev pub ip_turnover_time : ℕ
ip_turnover_time = 15

abbrev pub ip_turnover_update : ℕ
ip_turnover_update = 5

abbrev pub lat_low : ℕ
lat_low = 0

abbrev pub lat_mid : ℕ
lat_mid = 1

abbrev pub lat_oof : ℕ
lat_oof = 2

abbrev pub lat_top : ℕ
lat_top = 3

abbrev pub max_ip_pack : ℕ
max_ip_pack = max_clbytes / 6

-- A float as it is written: a number of units of its last decimal place.
pub record FloatLiteral : Type 0 where
  pub units : ℕ
  pub places : ℕ

abbrev pub stun_low_lat : FloatLiteral
stun_low_lat = record { units = 7; places = 2 }

abbrev pub stun_mid_lat : FloatLiteral
stun_mid_lat = record { units = 13; places = 2 }

abbrev pub stun_oof_lat : FloatLiteral
stun_oof_lat = record { units = 20; places = 2 }

abbrev pub turn_low_lat : FloatLiteral
turn_low_lat = record { units = 10; places = 2 }

abbrev pub turn_mid_lat : FloatLiteral
turn_mid_lat = record { units = 18; places = 2 }

abbrev pub turn_oof_lat : FloatLiteral
turn_oof_lat = record { units = 30; places = 2 }

abbrev pub max_poll_rate : FloatLiteral
max_poll_rate = record { units = 3; places = 1 }

abbrev pub lat_default : FloatLiteral
lat_default = record { units = 100000000; places = 1 }

abbrev pub latcheck : List FloatLiteral
latcheck = stun_low_lat ∷ stun_mid_lat ∷ stun_oof_lat ∷ record { units = 99999999; places = 1 } ∷ []
