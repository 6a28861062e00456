-- ===== src/Tests/Overlap.antt =====
-- Two sends of a connection of source/Network/TcpConnAsync.cpp that overlap.
use tzrpc.Prelude.{
  ℕ, zero, suc, ◌-◌, ◌≡◌, refl, [], ◌∷◌, ◌++◌, arith, length, length-append, take, drop, min,
}
use tzrpc.Prelude.Int.{pos}
use tzrpc.Core.Endian.{little, Bytes, htobe16, htobe32, mem16, mem32}
use tzrpc.Core.Message.{Message, of_data, net_str}
use tzrpc.Network.NetConn.{ConnStat, fresh_socket, io_buffer_size}
use tzrpc.Network.TcpConnAsync.{ConnConf, TcpConnAsync, new_connection}
use tzrpc.Network.TcpConnAsync.Overlap.{send_both, send_both-two_writes}

abbrev conf : ConnConf
conf = record { ops_cancel_time_out = pos 10; send_max_msg_size = pos 0; recv_max_msg_size = pos 0 }

abbrev working : TcpConnAsync
working = record (new_connection fresh_socket) {
  net = record { conn_stat = ConnStat.working; socket = fresh_socket };
}

abbrev zeros : ℕ → Bytes
zeros zero = []
zeros (suc n) = 0 ∷ zeros n

abbrev big_message : Message
big_message = of_data (zeros 1500)

big_message-size : length (net_str little big_message) ≡ 1516
unfolding net_str of_data htobe16 htobe32 mem16 mem32
big_message-size = refl

abbrev wire : Bytes
wire = net_str little big_message ++ net_str little big_message

wire-size : length wire ≡ 3032
wire-size = omega (
  arith,
  length-append (net_str little big_message) (net_str little big_message),
  big_message-size,
)

send_both-two_writes_example :
    ((send_both little conf big_message big_message working).net.socket.writes
      ≡ take io_buffer_size wire
        ∷ take (min (length wire - io_buffer_size) io_buffer_size) (drop io_buffer_size wire)
        ∷ [])
    × (take
          (min (length wire - io_buffer_size) io_buffer_size)
          (send_both little conf big_message big_message working).send_bound.io_block
        ≡ take (min (length wire - io_buffer_size) io_buffer_size) (drop io_buffer_size wire))
unfolding new_connection
send_both-two_writes_example =
    send_both-two_writes little conf big_message big_message working refl refl
      (record { works = refl; live = refl }) refl refl refl (omega (arith, wire-size))
      (omega (arith, wire-size))
