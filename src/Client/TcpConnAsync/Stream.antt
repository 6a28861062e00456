-- ===== src/Client/TcpConnAsync/Stream.antt =====
-- A connection of source/Client/TcpConnAsync.cpp that receives answers in any pieces.
use tzrpc.Prelude.{
  ℕ, ◌≡◌, refl, sym, ap, ◌∙◌, subst, Option, none, some, List, [], ◌∷◌, arith, length, All, inl,
  foldl,
}
use tzrpc.Core.Endian.{Endian, Bytes}
use tzrpc.Core.Message.{Message}
use tzrpc.Network.NetConn.{ConnStat, head}
use tzrpc.Network.TcpConnAsync as Server
use tzrpc.Network.TcpConnAsync.Parsing.{IsAccepted, stream}
use tzrpc.Network.TcpConnAsync.Framing.{handled}
use tzrpc.Network.TcpConnAsync.Stream.{joined, IsBlock, receive_all_lem}
use tzrpc.Network.TcpConnAsync.Stream as Server_stream
use tzrpc.Client.TcpConnSync.{ClientLimits}
use tzrpc.Client.TcpConnAsync.{TcpConnAsync, receive_all}
use tzrpc.Client.TcpConnAsync.Simulation.{
  as_server, server_conf, IsLimits, lift, silent, on_payload,
}
use tzrpc.Client.TcpConnAsync.Simulation.Reading.{receive_all-as_server}

-- The connection works and waits for the header of an answer, of which it has nothing yet.
pub record IsListening (c : TcpConnAsync) : Type 0 where
  pub works : c.net.conn_stat ≡ ConnStat.working
  pub empty : c.recv_bound.buffer.bytes ≡ []
  pub wanted : ℕ
  pub reading : c.net.socket.reads ≡ head wanted ∷ []

module _ {W : Type 0} where
  handled-silent :
      (handler : W → Bytes → W) (w : W) (ms : List Message)
      → handled (silent handler) w ms ≡ foldl (λ (v : W) (m : Message). handler v m.payload) w ms
  handled-silent handler w [] = refl
  handled-silent handler w (m ∷ ms) = handled-silent handler (handler w m.payload) ms

  -- What the client's outcome is, where the server's is known.
  lifted :
      (r : Option (W × TcpConnAsync)) {w : W} {d : Server.TcpConnAsync}
      → lift r ≡ some (w, d)
      → (c : TcpConnAsync) × (r ≡ some (w, c)) × (as_server c ≡ d)
  lifted none e = ground arith
  lifted (some (w', c)) {w} {d} e = (
    c,
    ap (λ (r : Option (W × Server.TcpConnAsync)). some (elim r [ none ↦ w' | some p ↦ p.0 ], c)) e,
    ap (λ (r : Option (W × Server.TcpConnAsync)). elim r [ none ↦ as_server c | some p ↦ p.1 ]) e,
  )

-- A connection that waits for an answer and receives, without an error and in blocks of at most 2048
-- bytes, the bytes of answers within the client's limit that a peer of either byte order sent, cut in
-- any way, gives its handler exactly their payloads, each once and in order, and then waits again.
pub receive_all-stream :
    (host peer : Endian) (limits : ClientLimits) {W : Type 0} (handler : W → Bytes → W) (w : W)
    (c : TcpConnAsync) (ms : List Message) (chunks : List Bytes)
    → IsLimits limits
    → IsListening c
    → All (IsAccepted (server_conf limits)) ms
    → All IsBlock chunks
    → joined chunks ≡ stream peer ms
    → (d : TcpConnAsync) × (receive_all host limits (on_payload handler) w c chunks
        ≡ some (foldl (λ (v : W) (m : Message). handler v m.payload) w ms, d))
      × IsListening d
receive_all-stream host peer limits {W} handler w c ms chunks v waits ok blocks sent =
    let (d', run, idle') =
      receive_all_lem host peer (server_conf limits) (silent handler) chunks w (as_server c) ms
        (record { works = waits.works; live = refl }) ok blocks
        (inl (
          waits.wanted,
          waits.reading,
          rw waits.empty sent,
          omega (arith, ap length waits.empty),
        )) in
    let (d, e, same) =
      lifted (receive_all host limits (on_payload handler) w c chunks)
        (sym (receive_all-as_server host limits v handler w c chunks) ∙ run) in
    let idle : Server_stream.IsIdle (as_server d) = subst Server_stream.IsIdle (sym same) idle' in
    (
      d,
      e ∙ ap (λ (u : W). some (u, d)) (handled-silent handler w ms),
      record {
        works = idle.ready.works;
        empty = idle.empty;
        wanted = idle.wanted;
        reading = idle.reading;
      },
    )
