-- ===== src/Client/TcpConnAsync/Simulation/Reading.antt =====
-- The receiving side of source/Client/TcpConnAsync.cpp does what that of
-- source/Network/TcpConnAsync.cpp does.
use mathlib.Core.Option
use tzrpc.Prelude.{
  ℕ, zero, suc, ◌+◌, ◌≡◌, refl, ap, ◌∙◌, Option, none, List, [], ◌∷◌, arith, ltb, Bool-cases, inl,
  inr, length,
}
use tzrpc.Core.Endian.{Endian, Bytes}
use tzrpc.Core.Message.{Message, header_size, empty_message}
use tzrpc.Core.Buffer.{get_length}
use tzrpc.Network.NetConn.{ReadOp, head, body, is_working, Socket}
use tzrpc.Network.TcpConnAsync as Server
use tzrpc.Network.TcpConnAsync.{ConnConf}
use tzrpc.Network.TcpConnAsync.Read as Server_read
use tzrpc.Network.TcpConnAsync.Read.{
  ParseStatus, Phase, parsed, again, failed, in_head, in_body, read_fuel,
}
use tzrpc.Client.TcpConnSync.{ClientLimits}
use tzrpc.Client.TcpConnAsync as Client
use tzrpc.Client.TcpConnAsync.{TcpConnAsync}
use tzrpc.Client.TcpConnAsync.Simulation.{
  as_server, server_conf, IsLimits, lift, bind-lift, silent, on_payload,
}

module _ (host : Endian) (limits : ClientLimits) (v : IsLimits limits) where
  parse_header-as_server :
      (c : TcpConnAsync)
      → Server_read.parse_header host (server_conf limits) (as_server c)
        ≡ ((Client.parse_header host limits c).0, as_server (Client.parse_header host limits c).1)
  unfolding Server_read.parse_header Client.parse_header
  parse_header-as_server c = ground (arith, v.recvs)

  parse_msg_body-as_server :
      (c : TcpConnAsync) (m : Message)
      → Server_read.parse_msg_body (as_server c) m ≡ (
        (Client.parse_msg_body c m).0,
        (Client.parse_msg_body c m).1,
        as_server (Client.parse_msg_body c m).2,
      )
  unfolding Server_read.parse_msg_body Client.parse_msg_body
  parse_msg_body-as_server c m = ground arith

  module _ {W : Type 0} (handler : W → Bytes → W) where
    abbrev Follows :
        (Phase → W → TcpConnAsync → Option (W × TcpConnAsync))
        → (Phase → W → Server.TcpConnAsync → Option (W × Server.TcpConnAsync))
        → Type 0
    Follows next next' =
        (p : Phase) (w : W) (c : TcpConnAsync) → next' p w (as_server c) ≡ lift (next p w c)

    module _ (next : Phase → W → TcpConnAsync → Option (W × TcpConnAsync))
        (next' : Phase → W → Server.TcpConnAsync → Option (W × Server.TcpConnAsync))
        (follows : Follows next next') where
      after_header-as_server :
          (w : W) (s : ParseStatus) (c : TcpConnAsync)
          → Server_read.after_header host
              (server_conf limits)
              (silent handler)
              next'
              w
              (s, as_server c)
            ≡ lift (Client.after_header host limits (on_payload handler) next w (s, c))
      unfolding Server_read.after_header Client.after_header Client.shutdown_and_close_socket
      after_header-as_server w parsed c = follows in_body w c
      after_header-as_server w again c = follows in_head w c
      after_header-as_server w failed c = refl

      after_body-as_server :
          (w : W) (s : ParseStatus) (m : Message) (c : TcpConnAsync)
          → Server_read.after_body host
              (server_conf limits)
              (silent handler)
              next'
              w
              (s, m, as_server c)
            ≡ lift (Client.after_body host limits (on_payload handler) next w (s, m, c))
      unfolding Server_read.after_body Server_read.dispatch Server.send_all Client.after_body
          Client.dispatch Client.shutdown_and_close_socket
      after_body-as_server w parsed m c = follows in_head (handler w m.payload) c
      after_body-as_server w again m c = follows in_body w c
      after_body-as_server w failed m c = refl

      do_read-as_server :
          (w : W) (c : TcpConnAsync)
          → Server_read.do_read host (server_conf limits) (silent handler) next' w (as_server c)
            ≡ lift (Client.do_read host limits (on_payload handler) next w c)
      unfolding Server_read.do_read Server_read.wait_for Server.set_ops_cancel_timeout
          Client.do_read
      do_read-as_server w c = elim (Bool-cases (is_working c.net.conn_stat)) [
        | inr e ↦ rw e refl
        | inl e ↦ elim (Bool-cases (ltb (get_length c.recv_bound.buffer) header_size)) [
          | inl short ↦ rw (e, short) refl
          | inr full ↦
              rw (e, full, parse_header-as_server c)
                (after_header-as_server w (Client.parse_header host limits c).0
                  (Client.parse_header host limits c).1)
        ]
      ]

      do_read_msg-as_server :
          (w : W) (c : TcpConnAsync)
          → Server_read.do_read_msg host (server_conf limits) (silent handler) next' w (as_server c)
            ≡ lift (Client.do_read_msg host limits (on_payload handler) next w c)
      unfolding Server_read.do_read_msg Server_read.wait_for Server.set_ops_cancel_timeout
          Client.do_read_msg
      do_read_msg-as_server w c = elim (Bool-cases (is_working c.net.conn_stat)) [
        | inr e ↦ rw e refl
        | inl e ↦
            elim (Bool-cases (ltb (get_length c.recv_bound.buffer) c.recv_bound.header.length)) [
              | inl short ↦ rw (e, short) refl
              | inr full ↦
                  rw (e, full, parse_msg_body-as_server c empty_message)
                    (after_body-as_server w (Client.parse_msg_body c empty_message).0
                      (Client.parse_msg_body c empty_message).1
                      (Client.parse_msg_body c empty_message).2)
            ]
      ]

      read_handler-as_server :
          (w : W) (c : TcpConnAsync) (received : Bytes)
          → Server_read.read_handler host
              (server_conf limits)
              (silent handler)
              next'
              w
              (as_server c)
              none
              received
            ≡ lift (Client.read_handler host limits (on_payload handler) next w c none received)
      unfolding Server_read.read_handler Server_read.store_received Server.revoke_ops_cancel_timeout
          Client.read_handler Client.store_received
      read_handler-as_server w c received =
          let stored : TcpConnAsync = Client.store_received c received in
          elim (Bool-cases (ltb (get_length stored.recv_bound.buffer) header_size)) [
            | inl short ↦ rw short (follows in_head w stored)
            | inr full ↦
                rw (full, parse_header-as_server stored)
                  (after_header-as_server w (Client.parse_header host limits stored).0
                    (Client.parse_header host limits stored).1)
          ]

      read_msg_handler-as_server :
          (w : W) (c : TcpConnAsync) (received : Bytes)
          → Server_read.read_msg_handler host
              (server_conf limits)
              (silent handler)
              next'
              w
              (as_server c)
              none
              received
            ≡ lift (Client.read_msg_handler host limits (on_payload handler) next w c none received)
      unfolding Server_read.read_msg_handler Server_read.store_received
          Server.revoke_ops_cancel_timeout Client.read_msg_handler Client.store_received
      read_msg_handler-as_server w c received =
          let stored : TcpConnAsync = Client.store_received c received in
          rw (parse_msg_body-as_server stored empty_message) (
            after_body-as_server w (Client.parse_msg_body stored empty_message).0
              (Client.parse_msg_body stored empty_message).1
              (Client.parse_msg_body stored empty_message).2)

      call_handler-as_server :
          (w : W) (c : TcpConnAsync) (received : Bytes) (ops : List ReadOp)
          → Server_read.call_handler host
              (server_conf limits)
              (silent handler)
              next'
              w
              (as_server c)
              none
              received
              ops
            ≡ lift (Client.call_handler host limits (on_payload handler) next w c none received ops)
      unfolding Server_read.call_handler Client.call_handler
      call_handler-as_server w c received [] = refl
      call_handler-as_server w c received (head n ∷ ops) =
          read_handler-as_server w (Client.forget_read c) received
      call_handler-as_server w c received (body n ∷ ops) =
          read_msg_handler-as_server w (Client.forget_read c) received

    abbrev calls : ℕ → Phase → W → TcpConnAsync → Option (W × TcpConnAsync)
    calls fuel = Client.read_loop host limits (on_payload handler) fuel

    abbrev calls' : ℕ → Phase → W → Server.TcpConnAsync → Option (W × Server.TcpConnAsync)
    calls' fuel = Server_read.read_loop host (server_conf limits) (silent handler) fuel

    read_loop-as_server : (fuel : ℕ) → Follows (calls fuel) (calls' fuel)
    unfolding Server_read.read_loop Client.read_loop
    read_loop-as_server zero p w c = refl
    read_loop-as_server (suc fuel) in_head w c =
        do_read-as_server (calls fuel) (calls' fuel) (read_loop-as_server fuel) w c
    read_loop-as_server (suc fuel) in_body w c =
        do_read_msg-as_server (calls fuel) (calls' fuel) (read_loop-as_server fuel) w c

    -- The call that starts the reading of a new connection.
    pub recv_net_message-as_server :
        (w : W) (s : Socket)
        → Server_read.start host (server_conf limits) (silent handler) w (Server.new_connection s)
          ≡ lift
              (Client.recv_net_message host limits (on_payload handler) w (Client.new_connection s))
    unfolding Server_read.start Server.new_connection Client.recv_net_message Client.new_connection
    recv_net_message-as_server w s = read_loop-as_server 4 in_head w (Client.new_connection s)

    pub complete_read-as_server :
        (w : W) (c : TcpConnAsync) (received : Bytes)
        → Server_read.complete_read host
            (server_conf limits)
            (silent handler)
            w
            (as_server c)
            none
            received
          ≡ lift (Client.complete_read host limits (on_payload handler) w c none received)
    unfolding Server_read.complete_read Client.complete_read
    complete_read-as_server w c received =
        let fuel = read_fuel (length c.recv_bound.buffer.bytes + length received) in
        call_handler-as_server (calls fuel) (calls' fuel) (read_loop-as_server fuel) w c received
          c.net.socket.reads

    -- Whatever bytes come in whatever pieces, the client's connection and the server's give their
    -- handlers the same payloads and end in the same state.
    pub receive_all-as_server :
        (w : W) (c : TcpConnAsync) (chunks : List Bytes)
        → Server_read.receive_all host (server_conf limits) (silent handler) w (as_server c) chunks
          ≡ lift (Client.receive_all host limits (on_payload handler) w c chunks)
    unfolding Server_read.receive_all Client.receive_all Option.bind
    receive_all-as_server w c [] = refl
    receive_all-as_server w c (received ∷ more) =
        ap
          (λ (r : Option (W × Server.TcpConnAsync)).
            Option.bind r (λ t.
              Server_read.receive_all host (server_conf limits) (silent handler) t.0 t.1 more))
          (complete_read-as_server w c received)
        ∙ bind-lift (Client.complete_read host limits (on_payload handler) w c none received)
            (λ t. Client.receive_all host limits (on_payload handler) t.0 t.1 more)
            (λ t. Server_read.receive_all host (server_conf limits) (silent handler) t.0 t.1 more)
            (λ w' c'. receive_all-as_server w' c' more)
