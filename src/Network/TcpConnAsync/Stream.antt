-- ===== src/Network/TcpConnAsync/Stream.antt =====
-- A connection of source/Network/TcpConnAsync.cpp over its whole life without an error.
use mathlib.Core.Option
use tzrpc.Prelude.{
  ℕ, ◌≤◌, ◌≡◌, refl, sym, ap, ◌∙◌, subst, some, List, [], ◌∷◌, ◌++◌, arith, length, length-append,
  All, inl, inr, append-nil,
}
use tzrpc.Core.Endian.{Endian, Bytes}
use tzrpc.Core.Message.{Message, Header, net_str}
use tzrpc.Core.Message.Codec.{length-net_str}
use tzrpc.Network.NetConn.{ConnStat, head, io_buffer_size, fresh_socket}
use tzrpc.Network.TcpConnAsync.{ConnConf, TcpConnAsync, new_connection}
use tzrpc.Network.TcpConnAsync.Read.{in_head, receive_all, serve, start}
use tzrpc.Network.TcpConnAsync.Parsing.{IsAccepted, IsReady, stream}
use tzrpc.Network.TcpConnAsync.Framing.{handled, Waits}
use tzrpc.Network.TcpConnAsync.Delivery.{read_loop_lem}
use tzrpc.Network.TcpConnAsync.Chunks.{Steps, head_arrives, body_arrives}

abbrev pub joined : List Bytes → Bytes
joined [] = []
joined (received ∷ more) = received ++ joined more

abbrev pub IsBlock : Bytes → Type 0
IsBlock received = length received ≤ io_buffer_size

-- All that came is handled, and the connection waits for a next header with an empty buffer.
pub record IsIdle (c : TcpConnAsync) : Type 0 where
  pub ready : IsReady c
  pub empty : c.recv_bound.buffer.bytes ≡ []
  pub wanted : ℕ
  pub reading : c.net.socket.reads ≡ head wanted ∷ []

module _ (host peer : Endian) (conf : ConnConf) {W : Type 0}
    (handle_rpc : W → Bytes → W × List Message) where
  arrives :
      (w : W) (c : TcpConnAsync) (ms : List Message) (received rest : Bytes)
      → IsReady c
      → All (IsAccepted conf) ms
      → IsBlock received
      → Waits peer c ms (received ++ rest)
      → Steps host peer conf handle_rpc w c ms received rest
  arrives w c ms received rest ready ok block (inl (n, reading, at, short)) =
      head_arrives host peer conf handle_rpc w c ms received rest n ready ok block reading at short
  arrives w c ms received rest ready ok block (inr (n, reading, at, short)) =
      body_arrives host peer conf handle_rpc w c ms received rest n ready ok block reading at short

  -- With nothing left to receive, no message is left either.
  finished :
      (w : W) (c : TcpConnAsync) (ms : List Message)
      → IsReady c
      → All (IsAccepted conf) ms
      → Waits peer c ms []
      → IsIdle c × (handled handle_rpc w ms ≡ w)
  finished w c [] ready ok (inl (n, reading, at, short)) = (
    record { ready = ready; empty = sym (append-nil _) ∙ at; wanted = n; reading = reading },
    refl,
  )
  finished w c (m ∷ ms) ready ok (inl (n, reading, at, short)) = absurd (
      omega (
        arith,
        ap length at,
        length-append c.recv_bound.buffer.bytes [],
        length-append (net_str peer m) (stream peer ms),
        length-net_str peer m ok.0.header,
      ))
  finished w c ms ready ok (inr (n, reading, (m, later, split, told, at), short)) = absurd (
      omega (
        arith,
        ap length at,
        length-append c.recv_bound.buffer.bytes [],
        length-append m.payload (stream peer later),
        (subst (All (IsAccepted conf)) split ok).0.measured,
        ap (λ (h : Header). h.length) told,
      ))

  pub receive_all_lem :
      (chunks : List Bytes) (w : W) (c : TcpConnAsync) (ms : List Message)
      → IsReady c
      → All (IsAccepted conf) ms
      → All IsBlock chunks
      → Waits peer c ms (joined chunks)
      → (c' : TcpConnAsync) × (receive_all host conf handle_rpc w c chunks
          ≡ some (handled handle_rpc w ms, c'))
        × IsIdle c'
  unfolding receive_all Option.bind
  receive_all_lem [] w c ms ready ok blocks waits =
      let (idle, same) = finished w c ms ready ok waits in (c, rw same, idle)
  receive_all_lem (received ∷ more) w c ms ready ok blocks waits =
      let (later, w', c', e, same, ready', ok', waits') =
        arrives w c ms received (joined more) ready ok blocks.0 waits in
      let (d, r, idle) = receive_all_lem more w' c' later ready' ok' blocks.1 waits' in
      (d, rw (e, Option.bind, same) r, idle)

  -- A connection that starts on a fresh socket and receives, without an error and in blocks of at
  -- most 2048 bytes, the bytes of accepted messages that a peer of either byte order sent, cut in
  -- any way, gives the dispatcher exactly the payloads of those messages, each once and in order,
  -- and then waits for a next header with an empty buffer. The fuel of the model is enough for
  -- that.
  pub serve-stream :
      (w : W) (ms : List Message) (chunks : List Bytes)
      → All (IsAccepted conf) ms
      → All IsBlock chunks
      → joined chunks ≡ stream peer ms
      → (c : TcpConnAsync) × (serve host conf handle_rpc w chunks
          ≡ some (handled handle_rpc w ms, c))
        × IsIdle c
  unfolding serve start new_connection Option.bind
  serve-stream w ms chunks ok blocks sent =
      let (later, w', c', e, same, ready', ok', waits') =
        read_loop_lem host peer conf handle_rpc 4 in_head w started ms (joined chunks)
          (record { works = refl; live = refl }) ok refl (omega arith) (omega arith) sent in
      let (d, r, idle) = receive_all_lem chunks w' c' later ready' ok' blocks waits' in
      (d, rw (e, same) r, idle)
    where
      started : TcpConnAsync
      started = record (new_connection fresh_socket) {
        net = record { conn_stat = ConnStat.working; socket = fresh_socket };
      }
