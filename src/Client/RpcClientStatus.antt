-- ===== src/Client/RpcClientStatus.antt =====
-- source/Client/include/RpcClientStatus.h: the results of a call. The type is a uint8_t, into which the
-- client casts any status byte that comes from the wire, so the model keeps the number.
use tzrpc.Prelude.{ℕ}

abbrev pub ok : ℕ
ok = 0

abbrev pub network_before_error : ℕ
network_before_error = 10

abbrev pub network_connect_error : ℕ
network_connect_error = 11

abbrev pub network_send_error : ℕ
network_send_error = 12

abbrev pub network_recv_error : ℕ
network_recv_error = 13

abbrev pub rpc_call_timeout_status : ℕ
rpc_call_timeout_status = 20

abbrev pub recv_format_error : ℕ
recv_format_error = 21
