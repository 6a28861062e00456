-- ===== src/Network/TcpConnAsync.antt =====
-- source/Network/TcpConnAsync.{h,cpp}: a connection of the server, its timer and its sending side.
-- The receiving side is in the child Read.
pub mod Read
pub mod Parsing
pub mod Sending
pub mod Framing
pub mod Delivery
pub mod Chunks
pub mod Stream
pub mod Writing
pub mod Overlap
pub mod Order
pub mod Termination
pub mod Rejection
use tzrpc.Prelude.{
  ℕ, ◌-◌, ◌%◌, ◌^◌, min, Bool, true, false, ◌||◌, ◌&&◌, not, Option, none, some, List, [], ◌∷◌, ltb,
  zero, suc, drop, is_empty, ◌==◌, if◌then◌else◌, take,
}
use tzrpc.Prelude.Int.{ℤ, pos, negsuc}
use tzrpc.Core.Endian.{Endian}
use tzrpc.Core.Message.{Message}
use tzrpc.Core.Buffer.{get_length, append, consume_raw}
use tzrpc.Network.NetConn.{
  NetConn, ConnStat, SendStatus, ErrorCode, IoBound, ShutdownType, Socket, is_working,
  sock_shutdown_and_close, sock_cancel, set_conn_stat, async_write, empty_bound, io_buffer_size,
}

-- The settings of the server that a connection reads, all of type int.
pub record ConnConf : Type 0 where
  pub ops_cancel_time_out : ℤ
  pub send_max_msg_size : ℤ
  pub recv_max_msg_size : ℤ

abbrev pub is_zero : ℤ → Bool
is_zero (pos n) = n == 0
is_zero (negsuc n) = false

-- `static_cast<uint32_t>` of an int.
abbrev pub to_u32 : ℤ → ℕ
to_u32 (pos n) = n % 2 ^ 32
to_u32 (negsuc n) = 2 ^ 32 - 1 - n % 2 ^ 32

-- `timer` holds the seconds that `ops_cancel_timer_` is set to, if there is one.
pub record TcpConnAsync : Type 0 where
  pub net : NetConn
  pub was_cancelled : Bool
  pub timer : Option ℤ
  pub recv_bound : IoBound
  pub send_status : SendStatus
  pub send_bound : IoBound

-- The constructor; the socket's options are not modelled.
unfoldable pub new_connection : Socket → TcpConnAsync
new_connection s = record {
  net = record { conn_stat = ConnStat.pending; socket = s };
  was_cancelled = false;
  timer = none;
  recv_bound = empty_bound;
  send_status = SendStatus.done;
  send_bound = empty_bound;
}

unfoldable pub stop : TcpConnAsync → TcpConnAsync
unfolding set_conn_stat
stop c = record c { net = set_conn_stat c.net ConnStat.pending }

unfoldable pub set_ops_cancel_timeout : ConnConf → TcpConnAsync → TcpConnAsync
set_ops_cancel_timeout conf c =
    if is_zero conf.ops_cancel_time_out
    then c
    else record c { timer = some conf.ops_cancel_time_out }

unfoldable pub revoke_ops_cancel_timeout : TcpConnAsync → TcpConnAsync
revoke_ops_cancel_timeout c = record c { timer = none }

unfoldable pub ops_cancel : TcpConnAsync → TcpConnAsync
unfolding set_conn_stat sock_cancel
ops_cancel c = record c {
  net = set_conn_stat (sock_cancel c.net) ConnStat.error;
  was_cancelled = true;
}

abbrev pub shutdown_both : TcpConnAsync → TcpConnAsync
shutdown_both c = record c { net = sock_shutdown_and_close c.net ShutdownType.both }

-- Whether an error of the socket closes the connection by itself.
abbrev pub closes_socket : ErrorCode → Bool
closes_socket ErrorCode.operation_aborted = false
closes_socket ErrorCode.connection_reset = true
closes_socket ErrorCode.timed_out = true
closes_socket ErrorCode.bad_descriptor = true
closes_socket ErrorCode.eof = true
closes_socket (ErrorCode.other n) = true

unfoldable pub handle_socket_ec : ErrorCode → TcpConnAsync → Bool × TcpConnAsync
unfolding revoke_ops_cancel_timeout ops_cancel
handle_socket_ec ec c =
    let close_socket = closes_socket ec in
    if close_socket || c.was_cancelled
    then (close_socket, shutdown_both (ops_cancel (revoke_ops_cancel_timeout c)))
    else (close_socket, c)

-- Only a timer that ran out cancels; an aborted wait and any other error do nothing.
unfoldable pub ops_cancel_timeout_call : Option ErrorCode → TcpConnAsync → TcpConnAsync
unfolding ops_cancel
ops_cancel_timeout_call none c = shutdown_both (ops_cancel c)
ops_cancel_timeout_call (some ec) c = c

abbrev pub is_sending : SendStatus → Bool
is_sending SendStatus.sending = true
is_sending SendStatus.done = false

-- A write as `do_write` starts it: the front of the buffer goes into the block, and the block
-- to the socket. `consume_raw` finds the bytes that it is asked for, so its `none` does not occur.
unfoldable pub start_write : ConnConf → TcpConnAsync → ℕ → TcpConnAsync
unfolding set_ops_cancel_timeout
start_write conf c to_write =
    elim (consume_raw c.send_bound.buffer (some c.send_bound.io_block) to_write) [
      | some (ok, some block, rest) ↦
          let armed = set_ops_cancel_timeout conf (record c {
            send_bound = record (c.send_bound) { io_block = block; buffer = rest };
            send_status = SendStatus.sending;
          }) in
          record armed {
            net = record (armed.net) {
              socket = async_write armed.net.socket (take to_write block);
            };
          }
      | some (ok, none, rest) ↦ c
      | none ↦ c
    ]

-- What `do_write` does under the lock.
abbrev pub write_locked : ConnConf → TcpConnAsync → Bool × TcpConnAsync
write_locked conf c =
    if get_length c.send_bound.buffer == 0
    then (true, record c { send_status = SendStatus.done })
    else (true, start_write conf c (min (get_length c.send_bound.buffer) io_buffer_size))

-- A call that runs to its end before the next one begins. The source tests outside the lock, so that
-- calls of several threads can also overlap: Overlap has those.
unfoldable pub do_write : ConnConf → TcpConnAsync → Bool × TcpConnAsync
do_write conf c =
    if is_sending c.send_status
    then (true, c)
    else if not (is_working c.net.conn_stat)
    then (false, c)
    else if c.was_cancelled
    then (false, c)
    else write_locked conf c

unfoldable pub write_handler : ConnConf → Option ErrorCode → TcpConnAsync → TcpConnAsync
unfolding revoke_ops_cancel_timeout
write_handler conf (some ec) c = (handle_socket_ec ec (revoke_ops_cancel_timeout c)).1
write_handler conf none c =
    (do_write conf (record (revoke_ops_cancel_timeout c) { send_status = SendStatus.done })).1

abbrev pub over_limit : ConnConf → Message → Bool
over_limit conf msg =
    not (is_zero conf.send_max_msg_size) && ltb (to_u32 conf.send_max_msg_size) msg.header.length

-- A message over the limit is refused with -1. Otherwise it joins the buffer and 0 is returned,
-- whatever `do_write` does. The lock is free between the two, so that calls of several threads can
-- overlap there too; this is one that runs to its end.
unfoldable pub async_send_message : Endian → ConnConf → TcpConnAsync → Message → ℤ × TcpConnAsync
async_send_message host conf c msg = if over_limit conf msg then (negsuc 0, c) else (
  pos 0,
  (do_write conf (record c {
    send_bound = record (c.send_bound) { buffer = (append host c.send_bound.buffer msg).0 };
  })).1,
)

unfoldable pub send_all : Endian → ConnConf → TcpConnAsync → List Message → TcpConnAsync
send_all host conf c [] = c
send_all host conf c (m ∷ ms) = send_all host conf (async_send_message host conf c m).1 ms

-- Asio has ended the write that was started first.
abbrev pub forget_write : TcpConnAsync → TcpConnAsync
forget_write c = record c {
  net = record (c.net) { socket = record (c.net.socket) { writes = drop 1 c.net.socket.writes } };
}

-- The handler of a write is called where one is in progress.
unfoldable pub complete_write : ConnConf → TcpConnAsync → Option ErrorCode → TcpConnAsync
unfolding write_handler
complete_write conf c ec =
    if is_empty c.net.socket.writes then c else write_handler conf ec (forget_write c)

unfoldable pub complete_writes : ConnConf → ℕ → TcpConnAsync → TcpConnAsync
unfolding complete_write
complete_writes conf zero c = c
complete_writes conf (suc k) c = complete_writes conf k (complete_write conf c none)
