-- ===== src/Network/TcpConnAsync/Chunks.antt =====
-- The handlers of source/Network/TcpConnAsync.cpp over a peer's stream that arrives in any pieces.
use tzrpc.Prelude.{
  ℕ, suc, ◌+◌, ◌^◌, ◌≤◌, ◌<◌, ◌≡◌, refl, ap, ◌∙◌, subst, Option, none, List, [], ◌∷◌, ◌++◌, arith,
  length, length-append, All, inl, inr, le→ltb, lt→ltb, ltb, ltb→lt, ltb→le, Bool-cases,
  append_assoc,
}
use tzrpc.Core.Endian.{Endian, Bytes}
use tzrpc.Core.Message.{Message, Header, header_size, empty_message}
use tzrpc.Core.Buffer.{get_length}
use tzrpc.Core.Buffer.Queue.{get_length_small}
use tzrpc.Network.NetConn.{head, body, io_buffer_size}
use tzrpc.Network.TcpConnAsync.{ConnConf, TcpConnAsync, revoke_ops_cancel_timeout}
use tzrpc.Network.TcpConnAsync.Read.{
  Phase, in_head, in_body, after_header, after_body, do_read, do_read_msg, read_loop, parse_header,
  parse_msg_body, store_received, read_handler, read_msg_handler, forget_read, call_handler,
  complete_read, read_fuel,
}
use tzrpc.Network.TcpConnAsync.Parsing.{IsAccepted, IsReady}
use tzrpc.Network.TcpConnAsync.Framing.{At, Reached, do_read_parses, do_read_msg_parses}
use tzrpc.Network.TcpConnAsync.Delivery.{read_loop_lem}

-- The connection as a handler finds it once the bytes of its read are in the buffer.
abbrev arrived : TcpConnAsync → Bytes → TcpConnAsync
arrived c received = store_received (revoke_ops_cancel_timeout (forget_read c)) received

module _ (host : Endian) (conf : ConnConf) {W : Type 0}
    (handle_rpc : W → Bytes → W × List Message) where
  read_loop-in_head :
      (fuel : ℕ) (w : W) (c : TcpConnAsync)
      → read_loop host conf handle_rpc (suc fuel) in_head w c
        ≡ do_read host conf handle_rpc (read_loop host conf handle_rpc fuel) w c
  unfolding read_loop
  read_loop-in_head fuel w c = refl

  read_loop-in_body :
      (fuel : ℕ) (w : W) (c : TcpConnAsync)
      → read_loop host conf handle_rpc (suc fuel) in_body w c
        ≡ do_read_msg host conf handle_rpc (read_loop host conf handle_rpc fuel) w c
  unfolding read_loop
  read_loop-in_body fuel w c = refl

  -- The four ways in which a handler goes on, once the bytes have arrived in `d`.
  module _ (next : Phase → W → TcpConnAsync → Option (W × TcpConnAsync)) (w : W) (c : TcpConnAsync)
      (received : Bytes) where
    abbrev stored : TcpConnAsync
    stored = store_received (revoke_ops_cancel_timeout c) received

    read_handler_short :
        get_length stored.recv_bound.buffer < header_size
        → read_handler host conf handle_rpc next w c none received ≡ next in_head w stored
    unfolding read_handler
    read_handler_short short = rw (lt→ltb _ _ short)

    read_handler_full :
        header_size ≤ get_length stored.recv_bound.buffer
        → read_handler host conf handle_rpc next w c none received
          ≡ after_header host conf handle_rpc next w (parse_header host conf stored)
    unfolding read_handler
    read_handler_full full = rw (le→ltb _ _ full)

    read_msg_handler_short :
        get_length stored.recv_bound.buffer < stored.recv_bound.header.length
        → read_msg_handler host conf handle_rpc next w c none received ≡ next in_body w stored
    unfolding read_msg_handler parse_msg_body
    read_msg_handler_short short = rw (lt→ltb _ _ short)

    read_msg_handler_full :
        read_msg_handler host conf handle_rpc next w c none received
        ≡ after_body host conf handle_rpc next w (parse_msg_body stored empty_message)
    unfolding read_msg_handler
    read_msg_handler_full = refl

  complete_read-head :
      (w : W) (c : TcpConnAsync) (received : Bytes) (n : ℕ)
      → c.net.socket.reads ≡ head n ∷ []
      → complete_read host conf handle_rpc w c none received
        ≡ read_handler host conf handle_rpc
            (read_loop host conf handle_rpc
              (read_fuel (length c.recv_bound.buffer.bytes + length received)))
            w
            (forget_read c)
            none
            received
  unfolding complete_read
  complete_read-head w c received n e =
      ap
        (call_handler host conf handle_rpc
          (read_loop host conf handle_rpc
            (read_fuel (length c.recv_bound.buffer.bytes + length received)))
          w c none received)
        e

  complete_read-body :
      (w : W) (c : TcpConnAsync) (received : Bytes) (n : ℕ)
      → c.net.socket.reads ≡ body n ∷ []
      → complete_read host conf handle_rpc w c none received
        ≡ read_msg_handler host conf handle_rpc
            (read_loop host conf handle_rpc
              (read_fuel (length c.recv_bound.buffer.bytes + length received)))
            w
            (forget_read c)
            none
            received
  unfolding complete_read
  complete_read-body w c received n e =
      ap
        (call_handler host conf handle_rpc
          (read_loop host conf handle_rpc
            (read_fuel (length c.recv_bound.buffer.bytes + length received)))
          w c none received)
        e

module _ (host peer : Endian) (conf : ConnConf) {W : Type 0}
    (handle_rpc : W → Bytes → W × List Message) where
  abbrev pub Steps : W → TcpConnAsync → List Message → Bytes → Bytes → Type 0
  Steps w c ms received rest =
      Reached conf handle_rpc peer (complete_read host conf handle_rpc w c none received) w ms rest

  pub head_arrives :
      (w : W) (c : TcpConnAsync) (ms : List Message) (received rest : Bytes) (n : ℕ)
      → IsReady c
      → All (IsAccepted conf) ms
      → length received ≤ io_buffer_size
      → c.net.socket.reads ≡ head n ∷ []
      → At peer in_head c ms (received ++ rest)
      → length c.recv_bound.buffer.bytes < header_size
      → Steps w c ms received rest
  unfolding store_received revoke_ops_cancel_timeout
  head_arrives w c ms received rest n ready ok block reading at short =
      let b : Bytes = c.recv_bound.buffer.bytes in
      let fuel : ℕ = read_fuel (length b + length received) in
      let d : TcpConnAsync = arrived c received in
      let size : length (b ++ received) ≡ length b + length received = length-append b received in
      let exact : get_length d.recv_bound.buffer ≡ length (b ++ received) =
        get_length_small d.recv_bound.buffer (omega arith) in
      let ready' : IsReady d = record { works = ready.works; live = ready.live } in
      let idle : d.net.socket.reads ≡ [] = rw reading in
      let at' : At peer in_head d ms rest = append_assoc b received rest ∙ at in
      let next = read_loop host conf handle_rpc fuel in
      rw (complete_read-head host conf handle_rpc w c received n reading)
        (elim (Bool-cases (ltb (length (b ++ received)) header_size)) [
          | inl less ↦
              rw
                (read_handler_short host conf handle_rpc next w (forget_read c) received
                  (omega (arith, ltb→lt _ _ less)))
                (read_loop_lem host peer conf handle_rpc fuel in_head w d ms rest ready' ok idle
                  (omega arith) (omega arith) at')
          | inr full ↦
              rw
                (
                  read_handler_full host conf handle_rpc next w (forget_read c) received
                      (omega (arith, ltb→le _ _ full)),
                  ← do_read_parses host conf handle_rpc next w d ready' (ltb→le _ _ full)
                      (omega arith),
                  ← read_loop-in_head host conf handle_rpc fuel w d,
                )
                (read_loop_lem host peer conf handle_rpc (suc fuel) in_head w d ms rest ready' ok
                  idle (omega arith) (omega arith) at')
        ])

  pub body_arrives :
      (w : W) (c : TcpConnAsync) (ms : List Message) (received rest : Bytes) (n : ℕ)
      → IsReady c
      → All (IsAccepted conf) ms
      → length received ≤ io_buffer_size
      → c.net.socket.reads ≡ body n ∷ []
      → At peer in_body c ms (received ++ rest)
      → length c.recv_bound.buffer.bytes < c.recv_bound.header.length
      → Steps w c ms received rest
  unfolding store_received revoke_ops_cancel_timeout
  body_arrives w c ms received rest n ready ok block reading (m, later, split, told, at) short =
      let b : Bytes = c.recv_bound.buffer.bytes in
      let fuel : ℕ = read_fuel (length b + length received) in
      let d : TcpConnAsync = arrived c received in
      let oks : All (IsAccepted conf) (m ∷ later) = subst (All (IsAccepted conf)) split ok in
      let within : c.recv_bound.header.length + 2064 ≤ 2 ^ 32 =
        omega (arith, oks.0.fits, oks.0.measured, ap (λ (h : Header). h.length) told) in
      let size : length (b ++ received) ≡ length b + length received = length-append b received in
      let exact : get_length d.recv_bound.buffer ≡ length (b ++ received) =
        get_length_small d.recv_bound.buffer (omega arith) in
      let ready' : IsReady d = record { works = ready.works; live = ready.live } in
      let idle : d.net.socket.reads ≡ [] = rw reading in
      let at' : At peer in_body d ms rest =
        (m, later, split, told, append_assoc b received rest ∙ at) in
      let next = read_loop host conf handle_rpc fuel in
      rw (complete_read-body host conf handle_rpc w c received n reading)
        (elim (Bool-cases (ltb (length (b ++ received)) c.recv_bound.header.length)) [
          | inl less ↦
              rw
                (read_msg_handler_short host conf handle_rpc next w (forget_read c) received
                  (omega (arith, ltb→lt _ _ less)))
                (read_loop_lem host peer conf handle_rpc fuel in_body w d ms rest ready' ok idle
                  (omega arith) (omega arith) at')
          | inr full ↦
              rw
                (
                  read_msg_handler_full host conf handle_rpc next w (forget_read c) received,
                  ← do_read_msg_parses host conf handle_rpc next w d ready' (ltb→le _ _ full)
                      (omega arith),
                  ← read_loop-in_body host conf handle_rpc fuel w d,
                )
                (read_loop_lem host peer conf handle_rpc (suc fuel) in_body w d ms rest ready' ok
                  idle (omega arith) (omega arith) at')
        ])
