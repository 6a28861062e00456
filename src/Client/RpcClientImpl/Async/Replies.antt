-- ===== src/Client/RpcClientImpl/Async/Replies.antt =====
-- The replies that reach the handler of the asynchronous calls of source/Client/RpcClientImpl.cpp.
use tzrpc.Prelude.{ℕ, ◌≡◌, refl, ap, ◌∙◌, some, List, [], ◌∷◌, map, foldl, All}
use tzrpc.Core.Endian.{Endian, Bytes, IsU16}
use tzrpc.Core.Message.{Message, of_data}
use tzrpc.Network.TcpConnAsync.Parsing.{IsAccepted, stream}
use tzrpc.Network.TcpConnAsync.Stream.{joined, IsBlock}
use tzrpc.Rpc.Response
use tzrpc.Rpc.Response.{of_reply}
use tzrpc.Client.RpcClientStatus.{ok}
use tzrpc.Client.TcpConnSync.{ClientLimits}
use tzrpc.Client.TcpConnAsync.{TcpConnAsync, receive_all}
use tzrpc.Client.TcpConnAsync.Simulation.{server_conf, IsLimits}
use tzrpc.Client.TcpConnAsync.Stream.{IsListening, receive_all-stream}
use tzrpc.Client.RpcClientImpl.{async_recv_wrapper}
use tzrpc.Client.RpcClientImpl.Answer.{async_recv_wrapper-of_reply}
use tzrpc.Client.RpcClientImpl.Async.{on_answer}

-- What a service replies to a request for one of its operations.
pub record Reply : Type 0 where
  pub service : ℕ
  pub opcode : ℕ
  pub bytes : Bytes

abbrev pub reply_message : Endian → Reply → Message
reply_message peer a = of_data (Response.net_str peer (of_reply a.service a.opcode a.bytes))

-- The ids are of type uint16_t, and the message is within the client's limit.
pub record IsReply (peer : Endian) (limits : ClientLimits) (a : Reply) : Type 0 where
  pub service_fits : IsU16 a.service
  pub opcode_fits : IsU16 a.opcode
  pub accepted : IsAccepted (server_conf limits) (reply_message peer a)

module _ (host peer : Endian) (limits : ClientLimits) {W : Type 0}
    (handler : W → ℕ → ℕ → ℕ → Bytes → W) where
  -- The user's handler on a reply.
  abbrev pub told : W → Reply → W
  told w a = handler w ok a.service a.opcode a.bytes

  -- The payload of a message is all that the wrapper reads of it.
  on_bytes : W → Bytes → W
  on_bytes w payload = on_answer host (some handler) w (of_data payload)

  on_answer-on_bytes :
      (w : W) (m : Message) → on_answer host (some handler) w m ≡ on_bytes w m.payload
  unfolding on_answer async_recv_wrapper of_data on_bytes
  on_answer-on_bytes w m = refl

  on_bytes-reply :
      (w : W) (a : Reply)
      → IsReply peer limits a
      → on_bytes w (reply_message peer a).payload ≡ told w a
  unfolding on_bytes on_answer of_data
  on_bytes-reply w a v =
      rw
        (async_recv_wrapper-of_reply host peer a.service a.opcode a.bytes (reply_message peer a)
          v.service_fits v.opcode_fits refl)
        refl

  folded :
      (w : W) (replies : List Reply)
      → All (IsReply peer limits) replies
      → foldl (λ (v : W) (m : Message). on_bytes v m.payload) w (map (reply_message peer) replies)
        ≡ foldl told w replies
  folded w [] all = refl
  folded w (a ∷ rest) all =
      ap
        (λ (u : W).
          foldl (λ (v : W) (m : Message). on_bytes v m.payload) u (map (reply_message peer) rest))
        (on_bytes-reply w a all.0)
      ∙ folded (told w a) rest all.1

  accepted :
      (replies : List Reply)
      → All (IsReply peer limits) replies
      → All (IsAccepted (server_conf limits)) (map (reply_message peer) replies)
  accepted [] all = tt
  accepted (a ∷ rest) all = (all.0.accepted, accepted rest all.1)

  -- A connection of asynchronous calls that waits for answers and receives, in blocks of at most
  -- 2048 bytes cut in any way and without an error, the replies that a server of either byte order
  -- sent, calls the user's handler once for each of them, in order, with OK, the ids and the bytes
  -- of that reply, and then waits again. The ids are of type uint16_t and each reply is within the
  -- client's limit.
  pub receive_all-replies :
      (w : W) (c : TcpConnAsync) (replies : List Reply) (chunks : List Bytes)
      → IsLimits limits
      → IsListening c
      → All (IsReply peer limits) replies
      → All IsBlock chunks
      → joined chunks ≡ stream peer (map (reply_message peer) replies)
      → (d : TcpConnAsync) × (receive_all host limits
            (some (on_answer host (some handler)))
            w
            c
            chunks
          ≡ some (foldl told w replies, d))
        × IsListening d
  receive_all-replies w c replies chunks v waits all blocks sent =
      let (d, run, waits') =
        receive_all-stream host peer limits on_bytes w c (map (reply_message peer) replies) chunks v
          waits (accepted replies all) blocks sent in
      let same : on_answer host (some handler) ≡ (λ u m. on_bytes u m.payload) =
        (λ i u m. on_answer-on_bytes u m i) in
      (
        d,
        ap (λ (h : W → Message → W). receive_all host limits (some h) w c chunks) same
            ∙ run
            ∙ ap (λ (u : W). some (u, d)) (folded w replies all),
        waits',
      )
