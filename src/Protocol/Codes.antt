-- ===== src/Protocol/Codes.antt =====
-- `enum class Opcode` and `enum class McbpStatus` of server/protocol.h, as numbers.
use fluxkv.Base.{ℕ}

abbrev pub op_get : ℕ
op_get = 0x00

abbrev pub op_set : ℕ
op_set = 0x01

abbrev pub op_delete : ℕ
op_delete = 0x04

abbrev pub op_noop : ℕ
op_noop = 0x0a

abbrev pub op_hello : ℕ
op_hello = 0x1f

abbrev pub op_sasl_list_mechs : ℕ
op_sasl_list_mechs = 0x20

abbrev pub op_sasl_auth : ℕ
op_sasl_auth = 0x21

abbrev pub op_sasl_step : ℕ
op_sasl_step = 0x22

abbrev pub op_select_bucket : ℕ
op_select_bucket = 0x89

abbrev pub op_get_cluster_config : ℕ
op_get_cluster_config = 0xb5

abbrev pub op_get_error_map : ℕ
op_get_error_map = 0xfe

abbrev pub success : ℕ
success = 0x00

abbrev pub key_not_found : ℕ
key_not_found = 0x01

abbrev pub auth_continue : ℕ
auth_continue = 0x21

abbrev pub unknown_command : ℕ
unknown_command = 0x81

abbrev pub internal_error : ℕ
internal_error = 0x84

abbrev pub tmp_fail : ℕ
tmp_fail = 0x86
