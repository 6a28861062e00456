-- ===== src/Network/TcpConnAsync/Rejection.antt =====
-- What source/Network/TcpConnAsync.cpp does with the bytes of a header that it does not take.
use mathlib.Core.Option
use tzrpc.Prelude.{
  ◌+◌, ◌^◌, ◌≤◌, ◌<◌, ◌≡◌, ◌≢◌, refl, ap, ◌∙◌, false, Option, none, some, List, [], ◌∷◌, ◌++◌,
  arith, length, take, drop, ◌⊎◌, ℕ,
}
use tzrpc.Core.Endian.{Endian, Bytes}
use tzrpc.Core.Message.{
  Message, Header, header_size, header_magic, header_version, from_net_endian, load_header,
}
use tzrpc.Core.Buffer.{consume, append_internal}
use tzrpc.Core.Buffer.Queue.{get_length_small, consume-take, consume-drop}
use tzrpc.Network.NetConn.{ConnStat, head, sock_shutdown_and_close, shutdown, close, ShutdownType}
use tzrpc.Network.TcpConnAsync.{
  ConnConf, TcpConnAsync, is_zero, to_u32, shutdown_both, revoke_ops_cancel_timeout,
}
use tzrpc.Network.TcpConnAsync.Parsing.{IsReady}
use tzrpc.Network.TcpConnAsync.Read.{
  failed, parse_header, store_received, after_header, read_handler, read_loop, read_fuel,
  call_handler, complete_read, receive_all, Phase, forget_read,
}

-- The header at the front of some bytes.
abbrev pub header_of : Endian → Bytes → Header
header_of host bytes = from_net_endian host (load_header host (take header_size bytes))

-- A header that the server does not take: another magic number or version, or a payload over the limit.
abbrev pub IsRefused : ConnConf → Header → Type 0
IsRefused conf h =
    (h.magic ≢ header_magic)
    ⊎ (h.version ≢ header_version)
    ⊎ ((is_zero conf.recv_max_msg_size ≡ false) × (to_u32 conf.recv_max_msg_size < h.length))

-- The connection with its bytes taken up to the end of the header.
abbrev past_header : Endian → TcpConnAsync → TcpConnAsync
past_header host c = record c {
  recv_bound = record (c.recv_bound) {
    header = header_of host c.recv_bound.buffer.bytes;
    buffer = record { bytes = drop header_size c.recv_bound.buffer.bytes };
  };
}

parse_header_refuses :
    (host : Endian) (conf : ConnConf) (c : TcpConnAsync)
    → header_size ≤ length c.recv_bound.buffer.bytes
    → length c.recv_bound.buffer.bytes < 2 ^ 32
    → IsRefused conf (header_of host c.recv_bound.buffer.bytes)
    → parse_header host conf c ≡ (failed, past_header host c)
unfolding parse_header
parse_header_refuses host conf c enough small refused =
    let b = c.recv_bound.buffer in
    let read : from_net_endian host (load_header host (consume b [] header_size).1)
        ≡ header_of host b.bytes =
      ap (λ (bs : Bytes). from_net_endian host (load_header host bs))
        (consume-take b header_size) in
    let left : (consume b [] header_size).2 ≡ record { bytes = drop header_size b.bytes } =
      ap (λ (bs : Bytes). record { bytes = bs }) (consume-drop b header_size) in
    ground (arith, read, left, get_length_small b small, refused)

module _ (host : Endian) (conf : ConnConf) {W : Type 0}
    (handle_rpc : W → Bytes → W × List Message) where
  complete_read-none :
      (w : W) (c : TcpConnAsync) (received : Bytes)
      → c.net.socket.reads ≡ []
      → complete_read host conf handle_rpc w c none received ≡ some (w, c)
  unfolding complete_read call_handler
  complete_read-none w c received rests = rw rests refl

  receive_all-none :
      (chunks : List Bytes) (w : W) (c : TcpConnAsync)
      → c.net.socket.reads ≡ []
      → receive_all host conf handle_rpc w c chunks ≡ some (w, c)
  unfolding receive_all Option.bind
  receive_all-none [] w c rests = refl
  receive_all-none (received ∷ more) w c rests =
      rw (complete_read-none w c received rests) (receive_all-none more w c rests)

  module _ (w : W) (c : TcpConnAsync) (received : Bytes) where
    -- What the handler has stored.
    abbrev stored : TcpConnAsync
    stored = store_received (revoke_ops_cancel_timeout (forget_read c)) received

    stored_bytes : stored.recv_bound.buffer.bytes ≡ c.recv_bound.buffer.bytes ++ received
    unfolding store_received revoke_ops_cancel_timeout append_internal
    stored_bytes = refl

    -- The connection after the refusal.
    abbrev dropped : TcpConnAsync
    dropped = shutdown_both (past_header host stored)

    read_handler_refuses :
        (next : Phase → W → TcpConnAsync → Option (W × TcpConnAsync))
        → header_size ≤ length (c.recv_bound.buffer.bytes ++ received)
        → length (c.recv_bound.buffer.bytes ++ received) < 2 ^ 32
        → IsRefused conf (header_of host (c.recv_bound.buffer.bytes ++ received))
        → read_handler host conf handle_rpc next w (forget_read c) none received ≡ some (w, dropped)
    unfolding read_handler after_header store_received revoke_ops_cancel_timeout append_internal
    read_handler_refuses next enough small refused = ground (
      arith,
      get_length_small stored.recv_bound.buffer,
      enough,
      small,
      parse_header_refuses host conf stored enough small refused,
    )

    complete_read_refuses :
        (n : ℕ)
        → c.net.socket.reads ≡ head n ∷ []
        → header_size ≤ length (c.recv_bound.buffer.bytes ++ received)
        → length (c.recv_bound.buffer.bytes ++ received) < 2 ^ 32
        → IsRefused conf (header_of host (c.recv_bound.buffer.bytes ++ received))
        → complete_read host conf handle_rpc w c none received ≡ some (w, dropped)
    unfolding complete_read call_handler
    complete_read_refuses n waits enough small refused =
        let next =
          read_loop host conf handle_rpc
            (read_fuel (length c.recv_bound.buffer.bytes + length received)) in
        ap (call_handler host conf handle_rpc next w c none received) waits
        ∙ read_handler_refuses next enough small refused

    -- A connection that works, waits for a header and then holds the bytes of one that it does not
    -- take, because of its magic number, its version or a payload over the limit, shuts its socket
    -- down, closes it and gives nothing to the dispatcher, whatever else the peer has sent and
    -- sends later. No other read is in progress, and it holds less than 2 ^ 32 bytes.
    pub receive_all_refuses :
        (n : ℕ) (more : List Bytes)
        → IsReady c
        → c.net.socket.reads ≡ head n ∷ []
        → header_size ≤ length (c.recv_bound.buffer.bytes ++ received)
        → length (c.recv_bound.buffer.bytes ++ received) < 2 ^ 32
        → IsRefused conf (header_of host (c.recv_bound.buffer.bytes ++ received))
        → (d : TcpConnAsync) × (receive_all host conf handle_rpc w c (received ∷ more)
            ≡ some (w, d))
          × (d.net.conn_stat ≡ ConnStat.closed)
          × (d.net.socket.calls
              ≡ (c.net.socket.calls ++ (shutdown ShutdownType.both ∷ [])) ++ (close ∷ []))
          × (d.net.socket.written ≡ c.net.socket.written)
    unfolding receive_all Option.bind sock_shutdown_and_close store_received
        revoke_ops_cancel_timeout
    receive_all_refuses n more ready waits enough small refused = (
      dropped,
      rw (complete_read_refuses n waits enough small refused)
          (receive_all-none more w dropped (ground (arith, ready.works, waits))),
      ground (arith, ready.works),
      ground (arith, ready.works),
      ground (arith, ready.works),
    )
