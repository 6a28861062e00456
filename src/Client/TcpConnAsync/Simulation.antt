-- ===== src/Client/TcpConnAsync/Simulation.antt =====
-- The connection of source/Client/TcpConnAsync.cpp does what the server's of
-- source/Network/TcpConnAsync.cpp does without a timer, as long as the socket has no error.
pub mod Reading
use mathlib.Core.Option
use tzrpc.Prelude.{
  ℕ, zero, suc, ◌+◌, ◌*◌, ◌%◌, ◌^◌, ◌<◌, ◌≤◌, ◌≡◌, refl, sym, ap, ◌∙◌, Bool, true, false, not,
  Option, none, some, List, [], ◌∷◌, arith, ltb, ◌==◌, if◌then◌else◌, Bool-cases, inl, inr, min,
  length, is_empty,
}
use tzrpc.Prelude.Int.{ℤ, pos, negsuc}
use tzrpc.Core.Endian.{Endian, Bytes, IsU32}
use tzrpc.Core.Message.{Message, header_size, empty_message}
use tzrpc.Core.Buffer.{get_length, append}
use tzrpc.Network.NetConn.{
  NetConn, SendStatus, ConnStat, ReadOp, head, body, is_working, fresh_socket, Socket,
  io_buffer_size,
}
use tzrpc.Network.TcpConnAsync as Server
use tzrpc.Network.TcpConnAsync.{ConnConf}
use tzrpc.Network.TcpConnAsync.Read as Server_read
use tzrpc.Network.TcpConnAsync.Read.{
  ParseStatus, Phase, parsed, again, failed, in_head, in_body, read_fuel,
}
use tzrpc.Client.TcpConnSync.{ClientLimits}
use tzrpc.Client.TcpConnAsync as Client
use tzrpc.Client.TcpConnAsync.{TcpConnAsync}

-- The connection as one of the server whose timer never runs.
abbrev pub as_server : TcpConnAsync → Server.TcpConnAsync
as_server c = record {
  net = c.net;
  was_cancelled = false;
  timer = none;
  recv_bound = c.recv_bound;
  send_status = c.send_status;
  send_bound = c.send_bound;
}

abbrev pub server_conf : ClientLimits → ConnConf
server_conf limits = record {
  ops_cancel_time_out = pos 0;
  send_max_msg_size = pos limits.send_max_msg_size;
  recv_max_msg_size = pos limits.recv_max_msg_size;
}

-- The limits are of type uint32_t.
pub record IsLimits (limits : ClientLimits) : Type 0 where
  pub sends : IsU32 limits.send_max_msg_size
  pub recvs : IsU32 limits.recv_max_msg_size

module _ {W : Type 0} where
  abbrev pub lift : Option (W × TcpConnAsync) → Option (W × Server.TcpConnAsync)
  lift none = none
  lift (some (w, c)) = some (w, as_server c)

  pub bind-lift :
      (r : Option (W × TcpConnAsync)) (next : W × TcpConnAsync → Option (W × TcpConnAsync))
      (next' : W × Server.TcpConnAsync → Option (W × Server.TcpConnAsync))
      → ((w : W) (c : TcpConnAsync) → next' (w, as_server c) ≡ lift (next (w, c)))
      → Option.bind (lift r) next' ≡ lift (Option.bind r next)
  unfolding Option.bind
  bind-lift none next next' same = refl
  bind-lift (some (w, c)) next next' same = same w c

  abbrev pub silent : (W → Bytes → W) → W → Bytes → W × List Message
  silent handler w payload = (handler w payload, [])

  abbrev pub on_payload : (W → Bytes → W) → Option (W → Message → W)
  on_payload handler = some (λ w m. handler w m.payload)

start_write-as_server :
    (limits : ClientLimits) (c : TcpConnAsync) (n : ℕ)
    → Server.start_write (server_conf limits) (as_server c) n ≡ as_server (Client.start_write c n)
unfolding Server.start_write Server.set_ops_cancel_timeout Client.start_write
start_write-as_server limits c n = ground arith

do_write-as_server :
    (limits : ClientLimits) (c : TcpConnAsync)
    → Server.do_write (server_conf limits) (as_server c)
      ≡ ((Client.do_write c).0, as_server (Client.do_write c).1)
unfolding Server.do_write Client.do_write
do_write-as_server limits c =
    ground
      (arith, start_write-as_server limits c (min (get_length c.send_bound.buffer) io_buffer_size))

pub complete_write-as_server :
    (limits : ClientLimits) (c : TcpConnAsync)
    → Server.complete_write (server_conf limits) (as_server c) none
      ≡ as_server (Client.complete_write c none)
unfolding Server.complete_write Server.write_handler Server.revoke_ops_cancel_timeout
    Client.complete_write Client.write_handler
complete_write-as_server limits c = ground (
  arith,
  do_write-as_server limits (record (Client.forget_write c) { send_status = SendStatus.done }),
)

pub complete_writes-as_server :
    (limits : ClientLimits) (k : ℕ) (c : TcpConnAsync)
    → Server.complete_writes (server_conf limits) k (as_server c)
      ≡ as_server (Client.complete_writes k c)
unfolding Server.complete_writes Client.complete_writes
complete_writes-as_server limits zero c = refl
complete_writes-as_server limits (suc k) c =
    ap (Server.complete_writes (server_conf limits) k) (complete_write-as_server limits c)
    ∙ complete_writes-as_server limits k (Client.complete_write c none)

pub send_net_message-as_server :
    (host : Endian) (limits : ClientLimits) (c : TcpConnAsync) (m : Message)
    → IsLimits limits
    → (Server.async_send_message host (server_conf limits) (as_server c) m).1
      ≡ as_server (Client.send_net_message host limits c m).1
unfolding Server.async_send_message Client.send_net_message
send_net_message-as_server host limits c m v = ground (
  arith,
  v.sends,
  do_write-as_server limits (record c {
    send_bound = record (c.send_bound) { buffer = (append host c.send_bound.buffer m).0 };
  }),
)
