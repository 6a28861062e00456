-- ===== src/Network/TcpConnAsync/Sending.antt =====
-- What source/Network/TcpConnAsync.cpp leaves alone when it sends.
use tzrpc.Prelude.{ℕ, ◌≡◌, refl, List, [], ◌∷◌, arith, min}
use tzrpc.Core.Endian.{Endian}
use tzrpc.Core.Message.{Message}
use tzrpc.Core.Buffer.{get_length, append}
use tzrpc.Network.NetConn.{io_buffer_size}
use tzrpc.Network.TcpConnAsync.{
  ConnConf, TcpConnAsync, send_all, start_write, do_write, async_send_message,
}

-- The sending of messages leaves the receiving side of a connection alone.
pub record SameReader (c d : TcpConnAsync) : Type 0 where
  pub stat : d.net.conn_stat ≡ c.net.conn_stat
  pub cancelled : d.was_cancelled ≡ c.was_cancelled
  pub bound : d.recv_bound ≡ c.recv_bound
  pub reads : d.net.socket.reads ≡ c.net.socket.reads
  pub calls : d.net.socket.calls ≡ c.net.socket.calls

start_write-SameReader :
    (conf : ConnConf) (c : TcpConnAsync) (n : ℕ) → SameReader c (start_write conf c n)
unfolding start_write
start_write-SameReader conf c n = ground arith

do_write-SameReader : (conf : ConnConf) (c : TcpConnAsync) → SameReader c (do_write conf c).1
unfolding do_write
do_write-SameReader conf c =
    ground
      (arith, start_write-SameReader conf c (min (get_length c.send_bound.buffer) io_buffer_size))

pub async_send_message-SameReader :
    (host : Endian) (conf : ConnConf) (c : TcpConnAsync) (m : Message)
    → SameReader c (async_send_message host conf c m).1
unfolding async_send_message
async_send_message-SameReader host conf c m = ground (
  arith,
  do_write-SameReader conf (record c {
    send_bound = record (c.send_bound) { buffer = (append host c.send_bound.buffer m).0 };
  }),
)

pub send_all-SameReader :
    (host : Endian) (conf : ConnConf) (c : TcpConnAsync) (ms : List Message)
    → SameReader c (send_all host conf c ms)
unfolding send_all
send_all-SameReader host conf c [] = record {
  stat = refl;
  cancelled = refl;
  bound = refl;
  reads = refl;
  calls = refl;
}
send_all-SameReader host conf c (m ∷ ms) =
    let d : TcpConnAsync = (async_send_message host conf c m).1 in
    ground (arith, async_send_message-SameReader host conf c m, send_all-SameReader host conf d ms)
