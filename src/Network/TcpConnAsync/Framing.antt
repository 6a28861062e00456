-- ===== src/Network/TcpConnAsync/Framing.antt =====
-- The receiving side of source/Network/TcpConnAsync.cpp against the stream of messages that a peer
-- sends: how the stream is cut into reads does not matter.
use tzrpc.Prelude.{
  ℕ, ◌+◌, ◌-◌, ◌*◌, ◌^◌, ◌≤◌, ◌<◌, ◌≡◌, Option, some, List, [], ◌∷◌, ◌++◌, arith, length, All, ◌⊎◌,
  min,
}
use tzrpc.Core.Endian.{Endian, Bytes}
use tzrpc.Core.Message.{Message, header_size, empty_message}
use tzrpc.Core.Buffer.{get_length}
use tzrpc.Core.Buffer.Queue.{get_length_small}
use tzrpc.Network.NetConn.{head, body, io_buffer_size}
use tzrpc.Network.TcpConnAsync.{ConnConf, TcpConnAsync}
use tzrpc.Network.TcpConnAsync.Read.{
  Phase, in_head, in_body, wait_for, after_header, after_body, do_read, do_read_msg, parse_header,
  parse_msg_body,
}
use tzrpc.Network.TcpConnAsync.Parsing.{IsAccepted, IsReady, stream}

-- The dispatcher's state after the payloads of messages, in order.
abbrev pub handled : {W : Type 0} → (W → Bytes → W × List Message) → W → List Message → W
handled handle_rpc w [] = w
handled handle_rpc w (m ∷ ms) = handled handle_rpc (handle_rpc w m.payload).0 ms

-- Where a connection stands in the peer's stream: `rest` is what it has not received yet.
abbrev pub At : Endian → Phase → TcpConnAsync → List Message → Bytes → Type 0
At peer in_head c ms rest = c.recv_bound.buffer.bytes ++ rest ≡ stream peer ms
At peer in_body c ms rest =
    (m : Message) × (later : List Message) × (ms ≡ m ∷ later)
    × (c.recv_bound.header ≡ m.header)
    × (c.recv_bound.buffer.bytes ++ rest ≡ m.payload ++ stream peer later)

-- One read is in progress, and the buffer is short of what the connection waits for.
abbrev pub Waits : Endian → TcpConnAsync → List Message → Bytes → Type 0
Waits peer c ms rest =
    ((n : ℕ) × (c.net.socket.reads ≡ head n ∷ [])
      × At peer in_head c ms rest
      × (length c.recv_bound.buffer.bytes < header_size))
    ⊎ ((n : ℕ) × (c.net.socket.reads ≡ body n ∷ [])
        × At peer in_body c ms rest
        × (length c.recv_bound.buffer.bytes < c.recv_bound.header.length))

-- The fuel that a phase wants of a buffer of that length.
abbrev pub need : Phase → ℕ → ℕ
need in_head n = 2 * n + 1
need in_body n = 2 * n + 2

module _ (conf : ConnConf) {W : Type 0} (handle_rpc : W → Bytes → W × List Message) where
  -- An outcome that has handled some of the messages and waits for the others.
  abbrev pub Reached : Endian → Option (W × TcpConnAsync) → W → List Message → Bytes → Type 0
  Reached peer r w ms rest =
      (later : List Message) × (w' : W) × (c' : TcpConnAsync) × (r ≡ some (w', c'))
      × (handled handle_rpc w ms ≡ handled handle_rpc w' later)
      × IsReady c'
      × All (IsAccepted conf) later
      × Waits peer c' later rest

module _ (host : Endian) (conf : ConnConf) {W : Type 0}
    (handle_rpc : W → Bytes → W × List Message) where
  pub do_read_waits :
      (next : Phase → W → TcpConnAsync → Option (W × TcpConnAsync)) (w : W) (c : TcpConnAsync)
      → IsReady c
      → length c.recv_bound.buffer.bytes < header_size
      → do_read host conf handle_rpc next w c
        ≡ some (w, wait_for conf (head (header_size - get_length c.recv_bound.buffer)) c)
  unfolding do_read
  do_read_waits next w c ready short =
      ground (arith, ready.works, ready.live, get_length_small c.recv_bound.buffer)

  pub do_read_parses :
      (next : Phase → W → TcpConnAsync → Option (W × TcpConnAsync)) (w : W) (c : TcpConnAsync)
      → IsReady c
      → header_size ≤ length c.recv_bound.buffer.bytes
      → length c.recv_bound.buffer.bytes < 2 ^ 32
      → do_read host conf handle_rpc next w c
        ≡ after_header host conf handle_rpc next w (parse_header host conf c)
  unfolding do_read
  do_read_parses next w c ready enough small =
      ground (arith, ready.works, ready.live, get_length_small c.recv_bound.buffer small)

  pub do_read_msg_waits :
      (next : Phase → W → TcpConnAsync → Option (W × TcpConnAsync)) (w : W) (c : TcpConnAsync)
      → IsReady c
      → length c.recv_bound.buffer.bytes < c.recv_bound.header.length
      → length c.recv_bound.buffer.bytes < 2 ^ 32
      → do_read_msg host conf handle_rpc next w c
        ≡ some (
          w,
          wait_for conf
              (body
                (min (c.recv_bound.header.length - get_length c.recv_bound.buffer) io_buffer_size))
              c,
        )
  unfolding do_read_msg
  do_read_msg_waits next w c ready short small =
      ground (arith, ready.works, ready.live, get_length_small c.recv_bound.buffer small)

  pub do_read_msg_parses :
      (next : Phase → W → TcpConnAsync → Option (W × TcpConnAsync)) (w : W) (c : TcpConnAsync)
      → IsReady c
      → c.recv_bound.header.length ≤ length c.recv_bound.buffer.bytes
      → length c.recv_bound.buffer.bytes < 2 ^ 32
      → do_read_msg host conf handle_rpc next w c
        ≡ after_body host conf handle_rpc next w (parse_msg_body c empty_message)
  unfolding do_read_msg
  do_read_msg_parses next w c ready enough small =
      ground (arith, ready.works, ready.live, get_length_small c.recv_bound.buffer small)
