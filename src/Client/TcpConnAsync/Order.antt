-- ===== src/Client/TcpConnAsync/Order.antt =====
-- The order in which requests leave a connection of source/Client/TcpConnAsync.cpp.
use tzrpc.Prelude.{
  ℕ, ◌+◌, ◌*◌, ◌^◌, ◌≤◌, ◌<◌, ◌≡◌, ◌≢◌, refl, sym, ap, ◌∙◌, subst, none, [], ◌++◌, arith, length,
  ◌⊎◌,
}
use tzrpc.Prelude.Int.{pos, negsuc}
use tzrpc.Core.Endian.{Endian, Bytes}
use tzrpc.Core.Message.{Message, net_str}
use tzrpc.Network.NetConn.{ConnStat, SendStatus, io_buffer_size}
use tzrpc.Network.TcpConnAsync as Server
use tzrpc.Network.TcpConnAsync.Order as Server_order
use tzrpc.Client.TcpConnSync.{ClientLimits}
use tzrpc.Client.TcpConnAsync.{TcpConnAsync, send_net_message, complete_write, complete_writes}
use tzrpc.Client.TcpConnAsync.Simulation.{
  as_server, server_conf, IsLimits, send_net_message-as_server, complete_write-as_server,
  complete_writes-as_server,
}

abbrev pub IsWithin : ClientLimits → Message → Type 0
IsWithin limits m = (limits.send_max_msg_size ≡ 0) ⊎ (m.header.length ≤ limits.send_max_msg_size)

-- A working connection that has not sent anything yet.
pub record IsUnused (c : TcpConnAsync) : Type 0 where
  pub works : c.net.conn_stat ≡ ConnStat.working
  pub idle : c.send_status ≡ SendStatus.done
  pub no_write : c.net.socket.writes ≡ []
  pub nothing_written : c.net.socket.written ≡ []
  pub nothing_queued : c.send_bound.buffer.bytes ≡ []

-- Such a connection after any sends and any ends of writes without an error; the bytes are those of the
-- messages that are within the limit, in the order of the calls. Each such send finds room in the buffer.
pub data Sent (host : Endian) (limits : ClientLimits) : TcpConnAsync → Bytes → Type 0 where
  opened : (c : TcpConnAsync) → IsUnused c → Sent host limits c []
  taken :
      {c : TcpConnAsync} {out : Bytes} (m : Message)
      → Sent host limits c out
      → length c.send_bound.buffer.bytes + length (net_str host m) < 2 ^ 32
      → IsWithin limits m
      → Sent host limits (send_net_message host limits c m).1 (out ++ net_str host m)
  refused :
      {c : TcpConnAsync} {out : Bytes} (m : Message)
      → Sent host limits c out
      → limits.send_max_msg_size ≢ 0
      → limits.send_max_msg_size < m.header.length
      → Sent host limits (send_net_message host limits c m).1 out
  ended :
      {c : TcpConnAsync} {out : Bytes}
      → Sent host limits c out
      → Sent host limits (complete_write c none) out

module _ (host : Endian) (limits : ClientLimits) (v : IsLimits limits) where
  accepts :
      (c : TcpConnAsync) (m : Message)
      → IsWithin limits m
      → (Server.async_send_message host (server_conf limits) (as_server c) m).0 ≡ pos 0
  unfolding Server.async_send_message
  accepts c m within = ground (arith, v.sends, within)

  refuses :
      (c : TcpConnAsync) (m : Message)
      → limits.send_max_msg_size ≢ 0
      → limits.send_max_msg_size < m.header.length
      → (Server.async_send_message host (server_conf limits) (as_server c) m).0 ≡ negsuc 0
  unfolding Server.async_send_message
  refuses c m limited long = ground (arith, v.sends, limited)

  Sent-as_server :
      {c : TcpConnAsync} {out : Bytes}
      → Sent host limits c out
      → Server_order.Sent host (server_conf limits) (as_server c) out
  Sent-as_server (opened c u) = Server_order.opened (as_server c) (record {
    ready = record { works = u.works; live = refl };
    idle = u.idle;
    no_write = u.no_write;
    nothing_written = u.nothing_written;
    nothing_queued = u.nothing_queued;
  })
  Sent-as_server (taken {c} {out} m s room within) =
      subst
        (λ (d : Server.TcpConnAsync).
          Server_order.Sent host (server_conf limits) d (out ++ net_str host m))
        (send_net_message-as_server host limits c m v)
        (Server_order.taken m (Sent-as_server s) room (accepts c m within))
  Sent-as_server (refused {c} {out} m s limited long) =
      subst (λ (d : Server.TcpConnAsync). Server_order.Sent host (server_conf limits) d out)
        (send_net_message-as_server host limits c m v)
        (Server_order.refused m (Sent-as_server s) (refuses c m limited long))
  Sent-as_server (ended {c} {out} s) =
      subst (λ (d : Server.TcpConnAsync). Server_order.Sent host (server_conf limits) d out)
        (complete_write-as_server limits c) (Server_order.ended (Sent-as_server s))

-- In whatever order the sends of a client and the ends of its writes follow each other, without an
-- error and each run to its end before the next begins, the bytes that went to the socket followed
-- by those in the buffer are the requests within the limit one after the other, whole and in the
-- order of the calls; and as many further ends of writes as the buffer has blocks of 2048 bytes,
-- and one more, bring all of them to the socket and leave no write in progress.
pub Sent-drains :
    (host : Endian) (limits : ClientLimits) (k : ℕ) {c : TcpConnAsync} {out : Bytes}
    → IsLimits limits
    → Sent host limits c out
    → length c.send_bound.buffer.bytes + io_buffer_size ≤ io_buffer_size * k
    → (c.net.socket.written ++ c.send_bound.buffer.bytes ≡ out)
      × ((complete_writes k c).net.socket.written ≡ out)
      × ((complete_writes k c).net.socket.writes ≡ [])
Sent-drains host limits k {c} {out} v s enough =
    let s' = Sent-as_server host limits v s in
    let drained = Server_order.complete_writes-drains host (server_conf limits) k s' enough in
    let same = complete_writes-as_server limits k c in
    (
      (Server_order.Sent-in_order host (server_conf limits) s').0,
      sym (ap (λ (d : Server.TcpConnAsync). d.net.socket.written) same) ∙ drained.0,
      sym (ap (λ (d : Server.TcpConnAsync). d.net.socket.writes) same) ∙ drained.1,
    )
